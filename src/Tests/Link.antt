-- ===== src/Tests/Link.antt =====
-- The theorems on src/LinkLayer.c at concrete inputs.
use dspc8681_linux_driver.Base.{◌≡◌, refl, arith, pos, take, done}
use dspc8681_linux_driver.LinkLayer.{LinkLayerHandler, link_layer_open, link_layer_close}
use dspc8681_linux_driver.LinkLayer.Layout.{
  Layout, nonnull, link_layer_open-Layout, link_layer_close-nonnull,
}
use dspc8681_linux_driver.Tests.Data.{tables}

link_layer_open-Layout_example :
    (h : LinkLayerHandler) × (link_layer_open tables 1 0xF0000000 ≡ done (h, pos 0))
    × Layout 0xC8400000 h
link_layer_open-Layout_example =
    link_layer_open-Layout tables 1 0xF0000000 0xC8400000 refl (omega arith)

link_layer_close-nonnull_example : link_layer_close tables ≡ done (nonnull (take 4 tables))
link_layer_close-nonnull_example = link_layer_close-nonnull tables (omega arith)

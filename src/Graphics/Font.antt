-- ===== src/Graphics/Font.antt =====
-- The table `fonts` of src/graphics.c. Each number has the 16 bytes of a character, the first line
-- of its bitmap first; the last one has 8 bytes in the table, and is filled up with zeros here.
use ras_pi_k.Base.{
  ℕ, ◌-◌, ◌/◌, ◌%◌, ◌^◌, Option, none, some, List, [], ◌∷◌, ltb, if◌then◌else◌, get_or,
}

-- the number of bytes of the table
abbrev pub fonts_size : ℕ
fonts_size = 2056

unfoldable pub fonts : List ℕ
fonts =
    0 ∷ 0 ∷ 0 ∷ 0 ∷ 0 ∷ 0 ∷ 0 ∷ 0 ∷ 0 ∷ 0 ∷ 0 ∷ 0 ∷ 0 ∷ 0 ∷ 0 ∷ 0 ∷ 0 ∷ 0 ∷ 0 ∷ 0 ∷ 0 ∷ 0 ∷ 0 ∷ 0
    ∷ 0 ∷ 0 ∷ 0 ∷ 0 ∷ 0 ∷ 0 ∷ 0 ∷ 0 ∷ 0 ∷ 0x00000008080808080800080800000000
    ∷ 0x00000014141414000000000000000000 ∷ 0x0000484868fe24247f14121200000000
    ∷ 0x000000107c92121c7090927c10100000 ∷ 0x00000006090946386690906000000000
    ∷ 0x0000003804040c92b2a246bc00000000 ∷ 0x00000008080808000000000000000000
    ∷ 0x00301010080808080808101020000000 ∷ 0x000c080810101010101008080c000000
    ∷ 0x00000010927c38d61000000000000000 ∷ 0x000000000808087f0808080000000000
    ∷ 0x00000000000000000000181808040000 ∷ 0x00000000000000001c00000000000000
    ∷ 0x00000000000000000000181800000000 ∷ 0x00000040202010101808080404020000
    ∷ 0x00000038448282928282443800000000 ∷ 0x0000001c101010101010107c00000000
    ∷ 0x0000007cc2808040301804fe00000000 ∷ 0x0000007c8280c038c080c27c00000000
    ∷ 0x000000605058484442fe404000000000 ∷ 0x0000007e02023ec08080c23c00000000
    ∷ 0x0000007884027ac68282c47800000000 ∷ 0x000000fe404020201018080400000000
    ∷ 0x0000007c8282827c8282867c00000000 ∷ 0x0000003c468282c6bc80423c00000000
    ∷ 0x00000000001818000000181800000000 ∷ 0x00000000001818000000181808040000
    ∷ 0x000000000080700e0e70800000000000 ∷ 0x000000000000fe0000fe000000000000
    ∷ 0x0000000000021ce0e01c020000000000 ∷ 0x0000001c222010080800080800000000
    ∷ 0x00000078cc84e2929292e2040c780000 ∷ 0x0000001028282844447cc68200000000
    ∷ 0x0000007e8282827e8282827e00000000 ∷ 0x00000078840202020202847800000000
    ∷ 0x0000003e428282828282423e00000000 ∷ 0x000000fe020202fe020202fe00000000
    ∷ 0x000000fe020202fe0202020200000000 ∷ 0x00000078840202c28282847800000000
    ∷ 0x00000082828282fe8282828200000000 ∷ 0x0000003e080808080808083e00000000
    ∷ 0x00000038202020202020221c00000000 ∷ 0x0000004222120a0e1222224200000000
    ∷ 0x0000000202020202020202fe00000000 ∷ 0x000000c6c6aaaaaa9282828200000000
    ∷ 0x00000086868a8a92a2a2c2c200000000 ∷ 0x00000038448282828282443800000000
    ∷ 0x0000007ec28282c27e02020200000000 ∷ 0x00000038448282828282447860400000
    ∷ 0x0000007ec282827e4282820200000000 ∷ 0x0000007c8602067cc080c27d00000000
    ∷ 0x0000007f080808080808080800000000 ∷ 0x00000082828282828282827c00000000
    ∷ 0x00000082c64444442828281000000000 ∷ 0x0000008181815a5a5a66666600000000
    ∷ 0x000000c644283810286c448200000000 ∷ 0x00000041221414080808080800000000
    ∷ 0x000000fec0602010080c06fe00000000 ∷ 0x00380808080808080808080838000000
    ∷ 0x00000002040408081810102020400000 ∷ 0x001c101010101010101010101c000000
    ∷ 0x00000008142263000000000000000000 ∷ 0x00000000000000000000000000007f00
    ∷ 0x00000810000000000000000000000000 ∷ 0x00000000003844407c42625c00000000
    ∷ 0x00020202023e66424242663e00000000 ∷ 0x00000000003844020202443800000000
    ∷ 0x00404040407c66424242667c00000000 ∷ 0x00000000003c66427e02463c00000000
    ∷ 0x00300808083e08080808080800000000 ∷ 0x00000000007c66424242665c40443800
    ∷ 0x00020202023a46424242424200000000 ∷ 0x00080000000e08080808083e00000000
    ∷ 0x00100000001c10101010101010100e00 ∷ 0x000202020222120a0e12224200000000
    ∷ 0x000e0808080808080808087000000000 ∷ 0x0000000000fe92929292929200000000
    ∷ 0x00000000003a46424242424200000000 ∷ 0x00000000003c66424242663c00000000
    ∷ 0x00000000003e66424242663e02020200 ∷ 0x00000000007c66424242665c40404000
    ∷ 0x00000000003c4c040404040400000000 ∷ 0x00000000003c42023c40423c00000000
    ∷ 0x00000008087e08080808087000000000 ∷ 0x00000000004242424242625c00000000
    ∷ 0x0000000000426624243c181800000000 ∷ 0x000000000081815a5a5a242400000000
    ∷ 0x00000000006624181818246600000000 ∷ 0x00000000004244242428181010080c00
    ∷ 0x00000000007e40201804027e00000000 ∷ 0x00380808080806080808080830000000
    ∷ 0x00080808080808080808080808080000 ∷ 0x000e0808080830080808080806000000
    ∷ 0x000000000000009c6200000000000000 ∷ 0xffffffffffffffffffffffffffffffff
    ∷ 0xffffffffffffffff0000000000000000 ∷ []

-- `fonts[i]`, and none past the end of the table
unfoldable pub font_byte : ℕ → Option ℕ
unfolding fonts
font_byte i =
    if ltb i fonts_size then some (get_or fonts (i / 16) 0 / 256 ^ (15 - i % 16) % 256) else none

-- ===== src/Strings/LowerTable.antt =====
-- The case table of Go's package unicode (Unicode 15.0) above ASCII: simple lower case.
use querylynx.Base.{List, [], ◌∷◌}
use querylynx.Strings.CaseRange.{CaseRange, up, down}

unfoldable pub lower_table : List CaseRange
lower_table =
    up 0x00c0 0x00d6 1 32
    ∷ up 0x00d8 0x00de 1 32
    ∷ up 0x0100 0x012e 2 1
    ∷ down 0x0130 0x0130 1 199
    ∷ up 0x0132 0x0136 2 1
    ∷ up 0x0139 0x0147 2 1
    ∷ up 0x014a 0x0176 2 1
    ∷ down 0x0178 0x0178 1 121
    ∷ up 0x0179 0x017d 2 1
    ∷ up 0x0181 0x0181 1 210
    ∷ up 0x0182 0x0184 2 1
    ∷ up 0x0186 0x0186 1 206
    ∷ up 0x0187 0x0187 1 1
    ∷ up 0x0189 0x018a 1 205
    ∷ up 0x018b 0x018b 1 1
    ∷ up 0x018e 0x018e 1 79
    ∷ up 0x018f 0x018f 1 202
    ∷ up 0x0190 0x0190 1 203
    ∷ up 0x0191 0x0191 1 1
    ∷ up 0x0193 0x0193 1 205
    ∷ up 0x0194 0x0194 1 207
    ∷ up 0x0196 0x0196 1 211
    ∷ up 0x0197 0x0197 1 209
    ∷ up 0x0198 0x0198 1 1
    ∷ up 0x019c 0x019c 1 211
    ∷ up 0x019d 0x019d 1 213
    ∷ up 0x019f 0x019f 1 214
    ∷ up 0x01a0 0x01a4 2 1
    ∷ up 0x01a6 0x01a6 1 218
    ∷ up 0x01a7 0x01a7 1 1
    ∷ up 0x01a9 0x01a9 1 218
    ∷ up 0x01ac 0x01ac 1 1
    ∷ up 0x01ae 0x01ae 1 218
    ∷ up 0x01af 0x01af 1 1
    ∷ up 0x01b1 0x01b2 1 217
    ∷ up 0x01b3 0x01b5 2 1
    ∷ up 0x01b7 0x01b7 1 219
    ∷ up 0x01b8 0x01b8 1 1
    ∷ up 0x01bc 0x01bc 1 1
    ∷ up 0x01c4 0x01c4 1 2
    ∷ up 0x01c5 0x01c5 1 1
    ∷ up 0x01c7 0x01c7 1 2
    ∷ up 0x01c8 0x01c8 1 1
    ∷ up 0x01ca 0x01ca 1 2
    ∷ up 0x01cb 0x01db 2 1
    ∷ up 0x01de 0x01ee 2 1
    ∷ up 0x01f1 0x01f1 1 2
    ∷ up 0x01f2 0x01f4 2 1
    ∷ down 0x01f6 0x01f6 1 97
    ∷ down 0x01f7 0x01f7 1 56
    ∷ up 0x01f8 0x021e 2 1
    ∷ down 0x0220 0x0220 1 130
    ∷ up 0x0222 0x0232 2 1
    ∷ up 0x023a 0x023a 1 10795
    ∷ up 0x023b 0x023b 1 1
    ∷ down 0x023d 0x023d 1 163
    ∷ up 0x023e 0x023e 1 10792
    ∷ up 0x0241 0x0241 1 1
    ∷ down 0x0243 0x0243 1 195
    ∷ up 0x0244 0x0244 1 69
    ∷ up 0x0245 0x0245 1 71
    ∷ up 0x0246 0x024e 2 1
    ∷ up 0x0370 0x0372 2 1
    ∷ up 0x0376 0x0376 1 1
    ∷ up 0x037f 0x037f 1 116
    ∷ up 0x0386 0x0386 1 38
    ∷ up 0x0388 0x038a 1 37
    ∷ up 0x038c 0x038c 1 64
    ∷ up 0x038e 0x038f 1 63
    ∷ up 0x0391 0x03a1 1 32
    ∷ up 0x03a3 0x03ab 1 32
    ∷ up 0x03cf 0x03cf 1 8
    ∷ up 0x03d8 0x03ee 2 1
    ∷ down 0x03f4 0x03f4 1 60
    ∷ up 0x03f7 0x03f7 1 1
    ∷ down 0x03f9 0x03f9 1 7
    ∷ up 0x03fa 0x03fa 1 1
    ∷ down 0x03fd 0x03ff 1 130
    ∷ up 0x0400 0x040f 1 80
    ∷ up 0x0410 0x042f 1 32
    ∷ up 0x0460 0x0480 2 1
    ∷ up 0x048a 0x04be 2 1
    ∷ up 0x04c0 0x04c0 1 15
    ∷ up 0x04c1 0x04cd 2 1
    ∷ up 0x04d0 0x052e 2 1
    ∷ up 0x0531 0x0556 1 48
    ∷ up 0x10a0 0x10c5 1 7264
    ∷ up 0x10c7 0x10c7 1 7264
    ∷ up 0x10cd 0x10cd 1 7264
    ∷ up 0x13a0 0x13ef 1 38864
    ∷ up 0x13f0 0x13f5 1 8
    ∷ down 0x1c90 0x1cba 1 3008
    ∷ down 0x1cbd 0x1cbf 1 3008
    ∷ up 0x1e00 0x1e94 2 1
    ∷ down 0x1e9e 0x1e9e 1 7615
    ∷ up 0x1ea0 0x1efe 2 1
    ∷ down 0x1f08 0x1f0f 1 8
    ∷ down 0x1f18 0x1f1d 1 8
    ∷ down 0x1f28 0x1f2f 1 8
    ∷ down 0x1f38 0x1f3f 1 8
    ∷ down 0x1f48 0x1f4d 1 8
    ∷ down 0x1f59 0x1f5f 2 8
    ∷ down 0x1f68 0x1f6f 1 8
    ∷ down 0x1f88 0x1f8f 1 8
    ∷ down 0x1f98 0x1f9f 1 8
    ∷ down 0x1fa8 0x1faf 1 8
    ∷ down 0x1fb8 0x1fb9 1 8
    ∷ down 0x1fba 0x1fbb 1 74
    ∷ down 0x1fbc 0x1fbc 1 9
    ∷ down 0x1fc8 0x1fcb 1 86
    ∷ down 0x1fcc 0x1fcc 1 9
    ∷ down 0x1fd8 0x1fd9 1 8
    ∷ down 0x1fda 0x1fdb 1 100
    ∷ down 0x1fe8 0x1fe9 1 8
    ∷ down 0x1fea 0x1feb 1 112
    ∷ down 0x1fec 0x1fec 1 7
    ∷ down 0x1ff8 0x1ff9 1 128
    ∷ down 0x1ffa 0x1ffb 1 126
    ∷ down 0x1ffc 0x1ffc 1 9
    ∷ down 0x2126 0x2126 1 7517
    ∷ down 0x212a 0x212a 1 8383
    ∷ down 0x212b 0x212b 1 8262
    ∷ up 0x2132 0x2132 1 28
    ∷ up 0x2160 0x216f 1 16
    ∷ up 0x2183 0x2183 1 1
    ∷ up 0x24b6 0x24cf 1 26
    ∷ up 0x2c00 0x2c2f 1 48
    ∷ up 0x2c60 0x2c60 1 1
    ∷ down 0x2c62 0x2c62 1 10743
    ∷ down 0x2c63 0x2c63 1 3814
    ∷ down 0x2c64 0x2c64 1 10727
    ∷ up 0x2c67 0x2c6b 2 1
    ∷ down 0x2c6d 0x2c6d 1 10780
    ∷ down 0x2c6e 0x2c6e 1 10749
    ∷ down 0x2c6f 0x2c6f 1 10783
    ∷ down 0x2c70 0x2c70 1 10782
    ∷ up 0x2c72 0x2c72 1 1
    ∷ up 0x2c75 0x2c75 1 1
    ∷ down 0x2c7e 0x2c7f 1 10815
    ∷ up 0x2c80 0x2ce2 2 1
    ∷ up 0x2ceb 0x2ced 2 1
    ∷ up 0x2cf2 0x2cf2 1 1
    ∷ up 0xa640 0xa66c 2 1
    ∷ up 0xa680 0xa69a 2 1
    ∷ up 0xa722 0xa72e 2 1
    ∷ up 0xa732 0xa76e 2 1
    ∷ up 0xa779 0xa77b 2 1
    ∷ down 0xa77d 0xa77d 1 35332
    ∷ up 0xa77e 0xa786 2 1
    ∷ up 0xa78b 0xa78b 1 1
    ∷ down 0xa78d 0xa78d 1 42280
    ∷ up 0xa790 0xa792 2 1
    ∷ up 0xa796 0xa7a8 2 1
    ∷ down 0xa7aa 0xa7aa 1 42308
    ∷ down 0xa7ab 0xa7ab 1 42319
    ∷ down 0xa7ac 0xa7ac 1 42315
    ∷ down 0xa7ad 0xa7ad 1 42305
    ∷ down 0xa7ae 0xa7ae 1 42308
    ∷ down 0xa7b0 0xa7b0 1 42258
    ∷ down 0xa7b1 0xa7b1 1 42282
    ∷ down 0xa7b2 0xa7b2 1 42261
    ∷ up 0xa7b3 0xa7b3 1 928
    ∷ up 0xa7b4 0xa7c2 2 1
    ∷ down 0xa7c4 0xa7c4 1 48
    ∷ down 0xa7c5 0xa7c5 1 42307
    ∷ down 0xa7c6 0xa7c6 1 35384
    ∷ up 0xa7c7 0xa7c9 2 1
    ∷ up 0xa7d0 0xa7d0 1 1
    ∷ up 0xa7d6 0xa7d8 2 1
    ∷ up 0xa7f5 0xa7f5 1 1
    ∷ up 0xff21 0xff3a 1 32
    ∷ up 0x10400 0x10427 1 40
    ∷ up 0x104b0 0x104d3 1 40
    ∷ up 0x10570 0x1057a 1 39
    ∷ up 0x1057c 0x1058a 1 39
    ∷ up 0x1058c 0x10592 1 39
    ∷ up 0x10594 0x10595 1 39
    ∷ up 0x10c80 0x10cb2 1 64
    ∷ up 0x118a0 0x118bf 1 32
    ∷ up 0x16e40 0x16e5f 1 32
    ∷ up 0x1e900 0x1e921 1 34
    ∷ []

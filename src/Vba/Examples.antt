-- ===== src/Vba/Examples.antt =====
-- `decompress` of src/vba.rs on concrete containers: the tests of the source, and the theorems at
-- concrete inputs.
use blackshard.Prelude.{◌≤◌, ◌≡◌, refl, [], ◌∷◌, arith, length}
use blackshard.Prelude.Bytes.{Bytes, codes}
use blackshard.Prelude.Results.{ok, Yields}
use blackshard.Vba.{
  decompress, chunks, chunk, chunk_with, chunk_body, groups, tokens, copy_token, copy_from, literal,
  copy, bit_length, get_range, get_u16,
}
use blackshard.Vba.Steps.{IsRefusal}
use blackshard.Vba.Limits
use blackshard.Vba.Copies
use blackshard.Vba.Copies.{Repeats}
use blackshard.Vba.Stored
use blackshard.Vba.Stored.{store}

computes : Unit {0}
unfolding decompress chunks chunk chunk_with chunk_body groups tokens copy_token copy_from literal
    copy bit_length get_range get_u16
computes = tt

abbrev uncompressed : Bytes
uncompressed =
    1 ∷ 25 ∷ 176 ∷ 0 ∷ 97 ∷ 98 ∷ 99 ∷ 100 ∷ 101 ∷ 102 ∷ 103 ∷ 104 ∷ 0 ∷ 105 ∷ 106 ∷ 107 ∷ 108 ∷ 109
    ∷ 110 ∷ 111 ∷ 112 ∷ 0 ∷ 113 ∷ 114 ∷ 115 ∷ 116 ∷ 117 ∷ 118 ∷ 46 ∷ []

uncompressed_test : decompress uncompressed 4096 ≡ ok (codes "abcdefghijklmnopqrstuv.")
unfolding computes
uncompressed_test = refl

abbrev compressed : Bytes
compressed =
    1 ∷ 47 ∷ 176 ∷ 0 ∷ 35 ∷ 97 ∷ 97 ∷ 97 ∷ 98 ∷ 99 ∷ 100 ∷ 101 ∷ 130 ∷ 102 ∷ 0 ∷ 112 ∷ 97 ∷ 103
    ∷ 104 ∷ 105 ∷ 106 ∷ 1 ∷ 56 ∷ 8 ∷ 97 ∷ 107 ∷ 108 ∷ 0 ∷ 32 ∷ 109 ∷ 110 ∷ 111 ∷ 112 ∷ 6 ∷ 113 ∷ 2
    ∷ 112 ∷ 4 ∷ 0 ∷ 114 ∷ 115 ∷ 116 ∷ 117 ∷ 118 ∷ 16 ∷ 119 ∷ 120 ∷ 121 ∷ 122 ∷ 0 ∷ 44 ∷ []

compressed_test :
    decompress compressed 4096
    ≡ ok (codes "#aaabcdefaaaaghijaaaaaklaaamnopqaaaaaaaaaaaarstuvwxyzaaa")
unfolding computes
compressed_test = refl

decompress-Yields_example :
    Yields (λ output. length output ≤ 4096) IsRefusal (decompress compressed 4096)
decompress-Yields_example = Limits.decompress-Yields compressed 4096 (omega arith) (omega arith)

copy-Repeats_example :
    (o : Bytes) × (copy 2 5 (1 ∷ 2 ∷ 3 ∷ []) ≡ ok o) × Repeats 2 (1 ∷ 2 ∷ 3 ∷ []) 5 o
copy-Repeats_example = Copies.copy-Repeats 2 5 (1 ∷ 2 ∷ 3 ∷ []) (omega arith) (omega arith)

decompress-store_example :
    decompress (store ((7 ∷ 8 ∷ []) ∷ (9 ∷ []) ∷ [])) 16 ≡ ok (7 ∷ 8 ∷ 9 ∷ [])
decompress-store_example =
    Stored.decompress-store ((7 ∷ 8 ∷ []) ∷ (9 ∷ []) ∷ []) 16
      ((omega arith, omega arith), ((omega arith, omega arith), tt)) (omega arith) (omega arith)
      (omega arith)

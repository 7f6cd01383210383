-- ===== src/Adb/Delivery.antt =====
-- A file is cut into pieces and sent whole (`push` of web/src/lib/adb.ts).
use zte_u60_pro_mu5250_manag.Common.{
  ℕ, zero, suc, ◌≤◌, ◌≡◌, ◌∙◌, refl, ap, [], ◌∷◌, ◌++◌, concat, All, length, drop, take, take-drop,
  length-take, length-drop, arith,
}
use zte_u60_pro_mu5250_manag.Adb.Wire.{Bytes}
use zte_u60_pro_mu5250_manag.Adb.Chunks.{chunk_size, chunks_from, chunks}

concat-chunks_from : (fuel : ℕ) (bs : Bytes) → length bs ≤ fuel → concat (chunks_from fuel bs) ≡ bs
unfolding chunks_from
concat-chunks_from fuel [] h = refl
concat-chunks_from zero (b ∷ bs) h = absurd (omega arith)
concat-chunks_from (suc fuel) (b ∷ bs) h =
    ap (λ r. take chunk_size (b ∷ bs) ++ r)
      (concat-chunks_from fuel (drop chunk_size (b ∷ bs))
        (omega (arith, length-drop chunk_size (b ∷ bs))))
    ∙ take-drop chunk_size (b ∷ bs)

abbrev pub IsPiece : Bytes → Type 0
IsPiece c = (1 ≤ length c) × (length c ≤ chunk_size)

chunks_from-pieces : (fuel : ℕ) (bs : Bytes) → All IsPiece (chunks_from fuel bs)
unfolding chunks_from
chunks_from-pieces fuel [] = tt
chunks_from-pieces zero (b ∷ bs) = tt
chunks_from-pieces (suc fuel) (b ∷ bs) = (
  (omega arith, length-take chunk_size (b ∷ bs)),
  chunks_from-pieces fuel (drop chunk_size (b ∷ bs)),
)

-- The pieces of a file, joined in order, are the file, and each has from 1 to 65,536 bytes.
pub chunks_lem : (file : Bytes) → (concat (chunks file) ≡ file) × All IsPiece (chunks file)
unfolding chunks
chunks_lem file =
    (concat-chunks_from (length file) file (omega arith), chunks_from-pieces (length file) file)

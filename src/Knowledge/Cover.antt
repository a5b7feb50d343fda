-- ===== src/Knowledge/Cover.antt =====
-- The chunks of a document in go/rag_runtime.go cover it, for every size that the policy allows.
use Prim.Native.Char.{Char}
use erdai_agent.Prelude.{
  ℕ, zero, suc, ◌+◌, ◌-◌, ◌*◌, ◌/◌, ◌≤◌, ◌<◌, true, false, ltb, leb, ◌==◌, List, [], ◌∷◌, length,
  get_elem?, ℤ, ◌≡◌, sym, subst, arith, Bool-cases, inl, inr, String,
}
use erdai_agent.Text.{trim_space}
use erdai_agent.Knowledge.Chunks.{
  runes, is_stop, last_stop, chunk_end, next_start, windows, chunk_size, chunk_overlap,
}

last_stop-bounds :
    (value : List Char) (floor k end : ℕ)
    → floor + k ≤ end
    → floor < end
    → (floor < last_stop value floor k end) × (last_stop value floor k end ≤ end)
unfolding last_stop
last_stop-bounds value floor zero end h l = (l, omega arith)
last_stop-bounds value floor (suc k) end h l =
    elim (Bool-cases (is_stop (get_elem? value (floor + k)))) [
      | inl y ↦ rw y (omega arith, omega arith)
      | inr n ↦ rw n (last_stop-bounds value floor k end (omega arith) l)
    ]

chunk_end-bounds :
    (value : List Char) (size start : ℕ)
    → 1 ≤ size
    → start < length value
    → (start < chunk_end value size start)
      × (chunk_end value size start ≤ start + size)
      × (chunk_end value size start ≤ length value)
unfolding chunk_end
chunk_end-bounds value size start one l = elim (Bool-cases (leb (length value) (start + size))) [
  | inl y ↦ rw y (l, ground arith, omega arith)
  | inr n ↦
      let short : start + size < length value = not_le (length value) (start + size) n in
      let (lo, hi) =
        last_stop-bounds value (start + size * 2 / 3) (start + size - (start + size * 2 / 3))
          (start + size) (omega arith) (omega arith) in
      rw n (omega arith, hi, omega arith)
]
  where
    not_le : (a b : ℕ) → leb a b ≡ false → b < a
    not_le a b h = ground arith

next_start-bounds :
    (overlap start end : ℕ)
    → start < end
    → (start < next_start overlap start end) × (next_start overlap start end ≤ end)
unfolding next_start
next_start-bounds overlap start end l = ground arith

-- The bounds of the chunks from a position on: each one begins where or before the one before it
-- ended and after its start, is of one to `size` runes, and the last one ends at the end.
pub data Covers (size len : ℕ) : ℕ → ℕ → List (ℕ × ℕ) → Type 0 where
  last :
      (low start : ℕ)
      → start < len
      → len ≤ start + size
      → start ≤ low
      → Covers size len start low ((start, len) ∷ [])
  more :
      (low start end next : ℕ) (ws : List (ℕ × ℕ))
      → start < end
      → end ≤ start + size
      → end < len
      → start < next
      → start ≤ low
      → Covers size len next end ws
      → Covers size len start low ((start, end) ∷ ws)

windows-Covers :
    (fuel : ℕ) (value : List Char) (size overlap start low : ℕ)
    → 1 ≤ size
    → start < length value
    → start ≤ low
    → length value ≤ start + fuel
    → Covers size (length value) start low (windows fuel value size overlap start)
unfolding windows
windows-Covers zero value size overlap start low one l b f = absurd (omega arith)
windows-Covers (suc fuel) value size overlap start low one l b f =
    let end = chunk_end value size start in
    let (lo, hi, in_range) = chunk_end-bounds value size start one l in
    let there : ltb start (length value) ≡ true = ground arith in
    rw there (elim (Bool-cases (end == length value)) [
      | inl y ↦
          let e : end ≡ length value = same end (length value) y in
          rw y (
            subst (λ m. Covers size (length value) start low ((start, m) ∷ [])) (sym e)
              (Covers.last low start l (omega arith) b))
      | inr n ↦
          let (up, back) = next_start-bounds overlap start end lo in
          let inside : end < length value = differ end (length value) n in_range in
          rw n (
            Covers.more low start end (next_start overlap start end) _ lo hi inside up b (
              windows-Covers fuel value size overlap (next_start overlap start end) end one
                (omega arith) back (omega arith)))
    ])
  where
    same : (a b : ℕ) → (a == b) ≡ true → a ≡ b
    same a b h = ground arith

    differ : (a b : ℕ) → (a == b) ≡ false → a ≤ b → a < b
    differ a b h k = ground arith

chunk_size_pos : (n : ℤ) → 1 ≤ chunk_size n
unfolding chunk_size
chunk_size_pos n = ground arith

-- The cut of a document ends, and loses nothing: for the size and the overlap that a policy ends up
-- with, whatever was configured, the loop reaches the end of a document that is not empty within a
-- round for each rune, its chunks leave no gap, go forward, and are of at most the size of the policy.
pub windows-end :
    (content : String) (size overlap : ℤ)
    → let value = runes (trim_space content) in
      0 < length value
      → Covers (chunk_size size) (length value) 0 0 (
          windows
            (length value)
            value
            (chunk_size size)
            (chunk_overlap (chunk_size size) overlap)
            0)
windows-end content size overlap l =
    windows-Covers (length (runes (trim_space content))) (runes (trim_space content))
      (chunk_size size) (chunk_overlap (chunk_size size) overlap) 0 0 (chunk_size_pos size) l
      (omega arith) (omega arith)

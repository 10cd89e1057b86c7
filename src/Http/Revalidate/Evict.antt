-- ===== src/Http/Revalidate/Evict.antt =====
-- providers/httpcore/revalidate.go: the loop that evicts entries.
use mamori.Prelude.{
  ℕ, zero, suc, ◌+◌, ◌-◌, ◌≤◌, ◌≡◌, inl, inr, [], ◌∷◌, Text, length, All, leb, leb→le, Bool-cases,
  arith,
}
use mamori.Http.Revalidate.{Entry, Cache, drop_last, evict}

length-drop_last : (lru : Cache) → length (drop_last lru) ≡ length lru - 1
unfolding drop_last
length-drop_last [] = omega arith
length-drop_last (x ∷ []) = omega arith
length-drop_last (x ∷ y ∷ lru) = omega (arith, length-drop_last (y ∷ lru))

pub length-evict :
    (fuel max : ℕ) (lru : Cache) → length lru ≤ fuel + max → length (evict fuel max lru) ≤ max
unfolding evict
length-evict zero max lru h = omega (arith, h)
length-evict (suc fuel) max lru h = elim (Bool-cases (leb (length lru) max)) [
  | inl fits ↦ rw fits (leb→le (length lru) max fits)
  | inr over ↦
      rw over (length-evict fuel max (drop_last lru) (omega (arith, h, length-drop_last lru)))
]

All-drop_last : (P : Text × Entry → Type 0) (lru : Cache) → All P lru → All P (drop_last lru)
unfolding drop_last
All-drop_last P [] h = tt
All-drop_last P (x ∷ []) h = tt
All-drop_last P (x ∷ y ∷ lru) (p, h) = (p, All-drop_last P (y ∷ lru) h)

pub All-evict :
    (P : Text × Entry → Type 0) (fuel max : ℕ) (lru : Cache)
    → All P lru
    → All P (evict fuel max lru)
unfolding evict
All-evict P zero max lru h = h
All-evict P (suc fuel) max lru h = elim (Bool-cases (leb (length lru) max)) [
  | inl fits ↦ rw fits h
  | inr over ↦ rw over (All-evict P fuel max (drop_last lru) (All-drop_last P lru h))
]

-- ===== src/Peer/ToRequest/Laws.antt =====
-- The map of the blocks to request holds one entry for a key.
use mathlib.Core.Option.{some-injective}
use rust_torrent_client.Prelude.{
  ℕ, zero, suc, ◌%◌, ◌≡◌, refl, sym, subst, ◌⊎◌, All, List, [], ◌∷◌, ◌++◌, none, some, true, false,
  if◌then◌else◌, length, get_elem?, get_elem?-some, arith, Bool-cases, inl, inr,
}
use rust_torrent_client.Peer.Queue.Laws.{same}
use rust_torrent_client.Peer.ToRequest.{
  Block, Entry, ToRequest, has_key, contains_key, insert, remove, first,
}

-- A value names the block of its key.
abbrev pub Agrees : Entry → Type 0
Agrees e = (e.key_piece ≡ e.value.piece_index) × (e.key_block ≡ e.value.block_index)

-- Each entry agrees with its key, and no two entries share a key.
abbrev pub Distinct : ToRequest → Type 0
Distinct [] = Unit
Distinct (e ∷ m) = Agrees e × (contains_key e.key_piece e.key_block m ≡ false) × Distinct m

module _ (p b p' b' : ℕ) where
  pub contains_key-insert :
      (v : Block) (m : ToRequest)
      → contains_key p' b' (insert p b v m)
        ≡ (if same p b p' b' then true else contains_key p' b' m)
  unfolding contains_key insert
  contains_key-insert v [] = ground arith
  contains_key-insert v (e ∷ m) = ground (arith, contains_key-insert v m)

  contains_key-remove_le :
      (m : ToRequest) → contains_key p' b' m ≡ false → contains_key p' b' (remove p b m) ≡ false
  unfolding contains_key remove
  contains_key-remove_le [] h = refl
  contains_key-remove_le (e ∷ m) h = ground (arith, contains_key-remove_le m)

  pub contains_key-remove :
      (m : ToRequest)
      → Distinct m
      → contains_key p' b' (remove p b m) ≡ (if same p b p' b' then false else contains_key p' b' m)
  unfolding contains_key remove
  contains_key-remove [] d = ground arith
  contains_key-remove (e ∷ m) d = ground (arith, contains_key-remove m d.2, d.1)

has_key-eq : (e : Entry) (p b : ℕ) → has_key e p b ≡ true → (e.key_piece ≡ p) × (e.key_block ≡ b)
unfolding has_key
has_key-eq e p b h = ground arith

module _ (p b : ℕ) where
  inserted :
      (v : Block) (e : Entry) (m : ToRequest)
      → contains_key e.key_piece e.key_block m ≡ false
      → has_key e p b ≡ false
      → contains_key e.key_piece e.key_block (insert p b v m) ≡ false
  unfolding has_key
  inserted v e m fresh other =
      ground (arith, contains_key-insert p b e.key_piece e.key_block v m, fresh)

  pub insert-Distinct :
      (len : ℕ) (m : ToRequest)
      → Distinct m
      → Distinct (insert p b (record { piece_index = p; block_index = b; block_length = len }) m)
  unfolding insert
  insert-Distinct len [] d = ((refl, refl), unfold contains_key in refl, tt)
  insert-Distinct len (e ∷ m) d = elim (Bool-cases (has_key e p b)) [
    | inl h ↦ rw h ((refl, refl), ground (arith, has_key-eq e p b h, d.1), d.2)
    | inr h ↦ rw h (d.0, inserted _ e m d.1 h, insert-Distinct len m d.2)
  ]

  pub remove-Distinct : (m : ToRequest) → Distinct m → Distinct (remove p b m)
  unfolding remove
  remove-Distinct [] d = d
  remove-Distinct (e ∷ m) d = elim (Bool-cases (has_key e p b)) [
    | inl h ↦ rw h d.2
    | inr h ↦
        rw h (d.0, contains_key-remove_le p b e.key_piece e.key_block m d.1, remove-Distinct m d.2)
  ]

  pub length-remove :
      (m : ToRequest) → contains_key p b m ≡ true → suc (length (remove p b m)) ≡ length m
  unfolding contains_key remove
  length-remove [] h = cc
  length-remove (e ∷ m) h = ground (arith, length-remove m)

-- The entry is one of the map.
abbrev pub Holds : Entry → ToRequest → Type 0
Holds e [] = ⊥
Holds e (x ∷ m) = (e ≡ x) ⊎ Holds e m

abbrev pub remove_all : List Entry → ToRequest → ToRequest
remove_all [] m = m
remove_all (e ∷ es) m = remove_all es (remove e.key_piece e.key_block m)

pub remove_all-append :
    (xs ys : List Entry) (m : ToRequest) → remove_all (xs ++ ys) m ≡ remove_all ys (remove_all xs m)
remove_all-append [] ys m = refl
remove_all-append (x ∷ xs) ys m = remove_all-append xs ys (remove x.key_piece x.key_block m)

Holds-remove : (p b : ℕ) (e : Entry) (m : ToRequest) → Holds e (remove p b m) → Holds e m
unfolding remove
Holds-remove p b e [] = λ h. h
Holds-remove p b e (x ∷ m) = elim (Bool-cases (has_key x p b)) [
  | inl found ↦ rw found (λ h. inr h)
  | inr other ↦
      rw other (λ h. elim h [ inl is ↦ inl is | inr later ↦ inr (Holds-remove p b e m later) ])
]

Holds-remove_all :
    (xs : List Entry) (e : Entry) (m : ToRequest) → Holds e (remove_all xs m) → Holds e m
Holds-remove_all [] e m h = h
Holds-remove_all (x ∷ xs) e m h =
    Holds-remove x.key_piece x.key_block e m
      (Holds-remove_all xs e (remove x.key_piece x.key_block m) h)

pub All-Holds :
    (xs : List Entry) (m : ToRequest) (es : List Entry)
    → All (λ e. Holds e (remove_all xs m)) es
    → All (λ e. Holds e m) es
All-Holds xs m [] h = tt
All-Holds xs m (e ∷ es) h = (Holds-remove_all xs e m h.0, All-Holds xs m es h.1)

get_elem?-Holds : (m : ToRequest) (i : ℕ) (e : Entry) → get_elem? m i ≡ some e → Holds e m
get_elem?-Holds [] i e h = cc h
get_elem?-Holds (x ∷ m) zero e h = inl (some-injective e x (sym h))
get_elem?-Holds (x ∷ m) (suc i) e h = inr (get_elem?-Holds m i e h)

get_elem?-entry :
    (m : ToRequest) (i : ℕ) (e : Entry)
    → Distinct m
    → get_elem? m i ≡ some e
    → Agrees e × (contains_key e.key_piece e.key_block m ≡ true)
unfolding contains_key
get_elem?-entry [] i e d h = cc
get_elem?-entry (x ∷ m) zero e d h =
    subst (λ y. Agrees y × (contains_key y.key_piece y.key_block (x ∷ m) ≡ true))
      (some-injective x e h) (d.0, ground arith)
get_elem?-entry (x ∷ m) (suc i) e d h =
    let (agrees, inside) = get_elem?-entry m i e d.2 h in (agrees, ground (arith, inside))

pub first-entry :
    (order : ToRequest → ℕ) (m : ToRequest) (e : Entry)
    → Distinct m
    → first order m ≡ some e
    → Agrees e × (contains_key e.key_piece e.key_block m ≡ true) × Holds e m
unfolding first
first-entry order m e d h =
    let (agrees, inside) = get_elem?-entry m (order m % length m) e d h in
    (agrees, inside, get_elem?-Holds m (order m % length m) e h)

-- A map that is not empty has a first key.
pub first-none : (order : ToRequest → ℕ) (m : ToRequest) → first order m ≡ none → m ≡ []
unfolding first
first-none order [] h = refl
first-none order (e ∷ m) h =
    let (x, at) = get_elem?-some (e ∷ m) (order (e ∷ m) % length (e ∷ m)) (omega arith) in
    absurd (cc (h, at))

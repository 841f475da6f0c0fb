-- ===== src/Auth/Spent.antt =====
-- What a table remembers of the counts that it has accepted.
use esp32_streamline.Prelude.{
  Bool-cases, inl, inr, false, ℕ, ◌≤◌, ◌<◌, ◌≡◌, ◌≢◌, arith, some, List, [], ◌∷◌, ◌++◌,
}
use esp32_streamline.Prelude.Bytes.{Text, text_eq, eq_of_text_eq, text_eq_refl}
use esp32_streamline.Auth.{Nonce, find_nonce, count_up, retain_live, make_room}

-- Every entry of the table that has the value `v` has accepted a count of at least `c`.
pub Spent : Text → ℕ → List Nonce → Type 0
Spent v c [] = Unit
Spent v c (n ∷ ns) = (n.value ≡ v → c ≤ n.last_nc) × Spent v c ns

pub Spent-retain_live :
    (v : Text) (c now : ℕ) (ns : List Nonce) → Spent v c ns → Spent v c (retain_live now ns)
unfolding Spent retain_live
Spent-retain_live v c now [] h = tt
Spent-retain_live v c now (n ∷ ns) h = ground (arith, Spent-retain_live v c now ns)

pub Spent-make_room : (v : Text) (c : ℕ) (ns : List Nonce) → Spent v c ns → Spent v c (make_room ns)
unfolding Spent make_room
Spent-make_room v c [] h = tt
Spent-make_room v c (n ∷ ns) h = ground arith

pub Spent-push :
    (v : Text) (c : ℕ) (ns : List Nonce) (n : Nonce)
    → Spent v c ns
    → n.value ≢ v
    → Spent v c (ns ++ (n ∷ []))
unfolding Spent
Spent-push v c [] n h fresh = (λ e. absurd (fresh e), tt)
Spent-push v c (m ∷ ns) n h fresh = (h.0, Spent-push v c ns n h.1 fresh)

pub Spent-count_up :
    (v w : Text) (c count : ℕ) (ns : List Nonce) (entry : Nonce)
    → Spent v c ns
    → find_nonce w ns ≡ some entry
    → entry.last_nc < count
    → Spent v c (count_up w count ns)
unfolding Spent count_up find_nonce
Spent-count_up v w c count [] entry h found more = tt
Spent-count_up v w c count (n ∷ ns) entry h found more =
    ground (arith, eq_of_text_eq n.value w, Spent-count_up v w c count ns entry)

pub Spent-found :
    (v : Text) (c : ℕ) (ns : List Nonce) (entry : Nonce)
    → Spent v c ns
    → find_nonce v ns ≡ some entry
    → c ≤ entry.last_nc
unfolding Spent find_nonce
Spent-found v c [] entry h found = ground arith
Spent-found v c (n ∷ ns) entry h found =
    ground (arith, eq_of_text_eq n.value v, Spent-found v c ns entry)

-- The value `v` stands at most once in the table.
abbrev IsAbsent : Text → List Nonce → Type 0
IsAbsent v [] = Unit
IsAbsent v (n ∷ ns) = (n.value ≢ v) × IsAbsent v ns

abbrev pub IsOnce : Text → List Nonce → Type 0
IsOnce v [] = Unit
IsOnce v (n ∷ ns) = (n.value ≡ v → IsAbsent v ns) × IsOnce v ns

Spent-of_absent : (v : Text) (c : ℕ) (ns : List Nonce) → IsAbsent v ns → Spent v c ns
unfolding Spent
Spent-of_absent v c [] h = tt
Spent-of_absent v c (n ∷ ns) h = ((λ e. absurd (h.0 e)), Spent-of_absent v c ns h.1)

differs : (s v : Text) → text_eq s v ≡ false → s ≢ v
differs s v h e = ground (arith, e, text_eq_refl v)

pub Spent-of_accepted :
    (v : Text) (count : ℕ) (ns : List Nonce) (entry : Nonce)
    → IsOnce v ns
    → find_nonce v ns ≡ some entry
    → Spent v count (count_up v count ns)
unfolding Spent count_up find_nonce
Spent-of_accepted v count [] entry h found = tt
Spent-of_accepted v count (n ∷ ns) entry h found = elim (Bool-cases (text_eq n.value v)) [
  | inl here ↦
      rw here (λ e. omega arith, Spent-of_absent v count ns (h.0 (eq_of_text_eq n.value v here)))
  | inr away ↦ rw away (
    (λ e. absurd (differs n.value v away e)),
    Spent-of_accepted v count ns entry h.1 (ground arith),
  )
]

-- ===== src/Portal/Fuel.antt =====
-- The fuel of the loop over the labels is enough: one turn more changes nothing.
use esp32_streamline.Prelude.{
  ℕ, zero, suc, ◌+◌, ◌-◌, ◌≤◌, ◌<◌, ◌≡◌, refl, Bool-cases, none, Option-cases, List, get_elem?, ltb,
  ◌==◌, inl, inr, arith, lt→ltb,
}
use esp32_streamline.Portal.{header_bytes, max_name_bytes, read_kind, labels}

read_kind-past : (packet : List ℕ) (cursor : ℕ) → 255 < cursor - 12 → read_kind packet cursor ≡ none
unfolding read_kind
read_kind-past packet cursor h = rw (lt→ltb max_name_bytes (cursor - header_bytes) h) refl

labels-enough :
    (fuel : ℕ) (packet : List ℕ) (cursor : ℕ)
    → 255 < cursor - 12 + fuel
    → 12 ≤ cursor
    → labels fuel packet cursor ≡ labels (suc fuel) packet cursor
unfolding labels
labels-enough zero packet cursor h low = elim (Option-cases (get_elem? packet cursor)) [
  | inl past ↦ rw (past, labels) refl
  | inr (n, e) ↦
      let next = cursor + 1 + n in
      elim (Bool-cases (n == 0)) [
        | inl last ↦ rw (e, last, labels, read_kind-past packet (cursor + 1) (omega arith)) refl
        | inr more ↦ elim (Bool-cases (ltb 63 n)) [
          | inl extended ↦ rw (e, more, extended, labels) refl
          | inr label ↦ elim (Option-cases (get_elem? packet (next - 1))) [
            | inl cut ↦ rw (e, more, label, cut, labels) refl
            | inr (b, f) ↦
                rw
                  (
                    e,
                    more,
                    label,
                    f,
                    lt→ltb max_name_bytes (next - header_bytes) (omega arith),
                    labels,
                  )
                  refl
          ]
        ]
      ]
]
labels-enough (suc fuel) packet cursor h low = elim (Option-cases (get_elem? packet cursor)) [
  | inl past ↦ rw (past, labels) refl
  | inr (n, e) ↦
      let next = cursor + 1 + n in
      elim (Bool-cases (n == 0)) [
        | inl last ↦ rw (e, last, labels) refl
        | inr more ↦ elim (Bool-cases (ltb 63 n)) [
          | inl extended ↦ rw (e, more, extended, labels) refl
          | inr label ↦ elim (Option-cases (get_elem? packet (next - 1))) [
            | inl cut ↦ rw (e, more, label, cut, labels) refl
            | inr (b, f) ↦ elim (Bool-cases (ltb max_name_bytes (next - header_bytes))) [
              | inl long ↦ rw (e, more, label, f, long, labels) refl
              | inr short ↦
                  rw (e, more, label, f, short, labels)
                    (labels-enough fuel packet next (omega arith) (omega arith))
            ]
          ]
        ]
      ]
]

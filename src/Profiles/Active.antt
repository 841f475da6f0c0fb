-- ===== src/Profiles/Active.antt =====
-- What becomes of the active profile.
use esp32_streamline.Prelude.{
  ◌≡◌, refl, ap, sym, ◌∙◌, true, false, Bool-cases, not, Option, none, some, Option-cases, ok, err,
  List, [], ◌∷◌, inl, inr, ◌⊎◌, arith, ltb, length, is_some_and, refuse_if-passes, >>-eq-ok, ◌==◌,
}
use esp32_streamline.Prelude.Bytes.{Text, text_eq, eq_of_text_eq}
use esp32_streamline.Board.{Board}
use esp32_streamline.Config.{AudioSettings}
use esp32_streamline.Profiles.{
  AudioProfile, AudioProfileCatalog, audio_eq, has_id, find, active_audio, activate_found,
  activate_id, activate, reconcile_active_audio, validate_profiles, validate,
  unknown_active_profile,
}

find-id : (ps : List AudioProfile) (id : Text) {p : AudioProfile} → find ps id ≡ some p → p.id ≡ id
unfolding find
find-id [] id e = cc
find-id (first ∷ rest) id {p} e = elim (Bool-cases (text_eq first.id id)) [
  | inl same ↦
      let f : first ≡ p = ground (arith, same, e) in
      ap (λ (q : AudioProfile). q.id) (sym f) ∙ eq_of_text_eq first.id id same
  | inr other ↦ find-id rest id {p = p} (ground (arith, other, e))
]

find-has_id :
    (ps : List AudioProfile) (id : Text) {p : AudioProfile}
    → find ps id ≡ some p
    → has_id id ps ≡ true
unfolding find has_id
find-has_id [] id e = cc
find-has_id (first ∷ rest) id {p} e = elim (Bool-cases (text_eq first.id id)) [
  | inl same ↦ ground (arith, same)
  | inr other ↦ ground (arith, other, find-has_id rest id {p = p} (ground (arith, other, e)))
]

audio_eq-eq : (a b : AudioSettings) → audio_eq a b ≡ true → a ≡ b
unfolding audio_eq
audio_eq-eq a b h =
    let l : a.input_line ≡ b.input_line = ground arith in
    let g : a.input_gain ≡ b.input_gain = ground arith in
    let d : a.adc_attenuation_db ≡ b.adc_attenuation_db = ground arith in
    λ i. record { input_line = l i; input_gain = g i; adc_attenuation_db = d i }

-- The catalog with another active profile.
abbrev with_active : AudioProfileCatalog → Option Text → AudioProfileCatalog
with_active c active = record c { active_profile_id = active }

module _ (trim : Text → Text) where
  -- A valid catalog stays valid with no active profile, or with one that it holds.
  with_active-validate :
      (c : AudioProfileCatalog) (board : Board) (active : Option Text)
      → validate trim c board ≡ ok tt
      → is_some_and active (λ id. not (has_id id c.profiles)) ≡ false
      → validate trim (with_active c active) board ≡ ok tt
  unfolding validate
  with_active-validate c board active v held =
      let (schema, v1) = refuse_if-passes (not (c.schema_version == 1)) _ _ v in
      let (named, v2) = refuse_if-passes (not (text_eq c.board_id board.id)) _ _ v1 in
      let (few, v3) = refuse_if-passes (ltb 8 (length c.profiles)) _ _ v2 in
      let (sound, v4) = >>-eq-ok (validate_profiles trim [] c.profiles board) _ v3 in
      rw (schema, named, few, sound, held) refl

  activate_found-keeps :
      (c : AudioProfileCatalog) (board : Board) (id : Text) (found : Option AudioProfile)
      → find c.profiles id ≡ found
      → validate trim c board ≡ ok tt
      → (validate trim (activate_found c found).0 board ≡ ok tt)
        × (((activate_found c found).1 ≡ err unknown_active_profile)
            ⊎ ((activate_found c found).1 ≡ ok (active_audio (activate_found c found).0)))
  unfolding active_audio
  activate_found-keeps c board id none f v = (v, inl refl)
  activate_found-keeps c board id (some p) f v =
      let named = find-id c.profiles id f in
      let held : has_id p.id c.profiles ≡ true =
        ap (λ i. has_id i c.profiles) named ∙ find-has_id c.profiles id f in
      let again : find c.profiles p.id ≡ some p = ap (λ i. find c.profiles i) named ∙ f in
      (with_active-validate c board (some p.id) v (ap not held), inr (rw (again) refl))

  activate-keeps :
      (c : AudioProfileCatalog) (board : Board) (id : Option Text)
      → validate trim c board ≡ ok tt
      → (validate trim (activate c id).0 board ≡ ok tt)
        × (((activate c id).1 ≡ err unknown_active_profile)
            ⊎ ((activate c id).1 ≡ ok (active_audio (activate c id).0)))
  unfolding activate activate_id active_audio
  activate-keeps c board none v = (with_active-validate c board none v refl, inr refl)
  activate-keeps c board (some []) v = (with_active-validate c board none v refl, inr refl)
  activate-keeps c board (some (x ∷ xs)) v =
      activate_found-keeps c board (x ∷ xs) (find c.profiles (x ∷ xs)) refl v

  reconcile_active_audio-keeps :
      (c : AudioProfileCatalog) (board : Board) (current : AudioSettings)
      → validate trim c board ≡ ok tt
      → (validate trim (reconcile_active_audio c current) board ≡ ok tt)
        × ((active_audio (reconcile_active_audio c current) ≡ none)
            ⊎ (active_audio (reconcile_active_audio c current) ≡ some current))
  unfolding reconcile_active_audio
  reconcile_active_audio-keeps c board current v = elim (Option-cases (active_audio c)) [
    | inl inactive ↦ rw (inactive) (v, inl inactive)
    | inr (audio, active) ↦ elim (Bool-cases (audio_eq audio current)) [
      | inl same ↦
          rw (active, same, reconcile_active_audio)
            (v, inr (active ∙ ap some (audio_eq-eq audio current same)))
      | inr other ↦
          rw (active, other, reconcile_active_audio)
            (with_active-validate c board none v refl, inl refl)
    ]
  ]

  -- On a catalog that is valid for a board, `activate` and then `reconcile_active_audio` give valid catalogs. A
  -- refused activation is that of an unknown profile, and a granted one returns the settings that are active
  -- then; after the reconciliation no profile is active, or one with the current settings.
  pub activate-reconcile :
      (c : AudioProfileCatalog) (board : Board) (id : Option Text) (current : AudioSettings)
      → validate trim c board ≡ ok tt
      → let activated = (activate c id).0 in
        let reconciled = reconcile_active_audio activated current in
        (validate trim activated board ≡ ok tt)
        × (((activate c id).1 ≡ err unknown_active_profile)
            ⊎ ((activate c id).1 ≡ ok (active_audio activated)))
        × (validate trim reconciled board ≡ ok tt)
        × ((active_audio reconciled ≡ none) ⊎ (active_audio reconciled ≡ some current))
  activate-reconcile c board id current v =
      let (kept, reply) = activate-keeps c board id v in
      let (kept', applied) = reconcile_active_audio-keeps (activate c id).0 board current kept in
      (kept, reply, kept', applied)

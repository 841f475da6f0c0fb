-- ===== src/Auth/Replay.antt =====
-- An accepted exchange authorizes nothing a second time.
use esp32_streamline.Prelude.{
  ℕ, ◌≤◌, ◌<◌, ◌≡◌, ◌≢◌, ◌⊎◌, inl, inr, refl, sym, arith, Bool, Option, none, some, List, [], ◌∷◌,
}
use mathlib.Core.Path.{subst}
use esp32_streamline.Prelude.Bytes.{Text}
use esp32_streamline.Hex.{encode}
use esp32_streamline.Auth.{
  Nonce, Request, Claim, Verdict, authorized, denied, authorize, challenge, claim_of, check_claim,
  check_count, judge, find_nonce, record_verdict, count_up, retain_live, make_room, nonce_bytes,
}
use esp32_streamline.Auth.Spent.{
  Spent, IsOnce, Spent-retain_live, Spent-make_room, Spent-push, Spent-count_up, Spent-found,
  Spent-of_accepted,
}

-- What the server does between two requests: it hands out a challenge or judges a request.
pub data Event : Type 0 where
  challenged : (now : ℕ) (stale : Bool) → Event
  requested : Request → (now : ℕ) → Event

accepted :
    (digest : Text → Text) (parse_count : Text → Option ℕ) (secret : Text) (q : Request)
    (claim : Claim) (now count : ℕ) (found : Option Nonce)
    → judge digest parse_count secret q claim count now found ≡ authorized
    → (entry : Nonce) × (found ≡ some entry) × (entry.last_nc < count)
unfolding judge
accepted digest parse_count secret q claim now count none h = absurd (ground arith)
accepted digest parse_count secret q claim now count (some entry) h = (entry, refl, ground arith)

authorize_cases :
    (digest : Text → Text) (parse_count : Text → Option ℕ) (ns : List Nonce) (secret : Text)
    (q : Request) (now : ℕ)
    → (authorize digest parse_count ns secret q now ≡ (ns, authorized))
      ⊎ (authorize digest parse_count ns secret q now
          ≡ check_claim digest parse_count secret q now (claim_of q) ns)
unfolding authorize
authorize_cases digest parse_count ns [] q now = inl refl
authorize_cases digest parse_count ns (k ∷ secret) q now = inr refl

module _ {R : Type 0} (fill : ℕ → R → List ℕ × R) (digest : Text → Text)
    (parse_count : Text → Option ℕ) (secret : Text) where
  abbrev pub step : List Nonce × R → Event → List Nonce × R
  step (ns, r) (challenged now stale) =
      let (ns', r', _) = challenge fill ns r now stale in (ns', r')
  step (ns, r) (requested q now) = ((authorize digest parse_count ns secret q now).0, r)

  abbrev pub run : List Nonce × R → List Event → List Nonce × R
  run s [] = s
  run s (e ∷ es) = run (step s e) es

  -- No challenge of the run draws the value `v`.
  abbrev IsFresh : Text → List Nonce × R → List Event → Type 0
  IsFresh v s [] = Unit
  IsFresh v s (challenged now stale ∷ es) =
      (encode (fill nonce_bytes s.1).0 ≢ v) × IsFresh v (step s (challenged now stale)) es
  IsFresh v s (requested q now ∷ es) = IsFresh v (step s (requested q now)) es

  Spent-recorded :
      (v : Text) (c : ℕ) (ns : List Nonce) (q : Request) (claim : Claim) (now count : ℕ)
      (verdict : Verdict)
      → judge digest parse_count secret q claim count now (find_nonce claim.nonce ns) ≡ verdict
      → Spent v c ns
      → Spent v c (record_verdict claim.nonce count ns verdict).0
  unfolding record_verdict
  Spent-recorded v c ns q claim now count (denied stale) e h = h
  Spent-recorded v c ns q claim now count authorized e h =
      let (entry, found, more) =
        accepted digest parse_count secret q claim now count (find_nonce claim.nonce ns) e in
      Spent-count_up v claim.nonce c count ns entry h found more

  Spent-counted :
      (v : Text) (c : ℕ) (ns : List Nonce) (q : Request) (claim : Claim) (now : ℕ)
      (count : Option ℕ)
      → Spent v c ns
      → Spent v c (check_count digest parse_count secret q claim now count ns).0
  unfolding check_count
  Spent-counted v c ns q claim now none h = h
  Spent-counted v c ns q claim now (some count) h =
      Spent-recorded v c ns q claim now count
        (judge digest parse_count secret q claim count now (find_nonce claim.nonce ns)) refl h

  Spent-claimed :
      (v : Text) (c : ℕ) (ns : List Nonce) (q : Request) (now : ℕ) (claim : Option Claim)
      → Spent v c ns
      → Spent v c (check_claim digest parse_count secret q now claim ns).0
  unfolding check_claim
  Spent-claimed v c ns q now none h = h
  Spent-claimed v c ns q now (some claim) h =
      ground (arith, h, Spent-counted v c ns q claim now (parse_count claim.nc) h)

  Spent-authorize :
      (v : Text) (c : ℕ) (ns : List Nonce) (q : Request) (now : ℕ)
      → Spent v c ns
      → Spent v c (authorize digest parse_count ns secret q now).0
  Spent-authorize v c ns q now h = elim (authorize_cases digest parse_count ns secret q now) [
    | inl keyless ↦ rw keyless h
    | inr judged ↦ rw judged (Spent-claimed v c ns q now (claim_of q) h)
  ]

  Spent-run :
      (v : Text) (c : ℕ) (s : List Nonce × R) (es : List Event)
      → Spent v c s.0
      → IsFresh v s es
      → Spent v c (run s es).0
  unfolding challenge
  Spent-run v c s [] h fresh = h
  Spent-run v c (ns, r) (challenged now stale ∷ es) h fresh =
      Spent-run v c (step (ns, r) (challenged now stale)) es
        (Spent-push v c (make_room (retain_live now ns))
          (record { value = encode (fill nonce_bytes r).0; issued_at_ms = now; last_nc = 0 })
          (Spent-make_room v c (retain_live now ns) (Spent-retain_live v c now ns h)) fresh.0)
        fresh.1
  Spent-run v c (ns, r) (requested q now ∷ es) h fresh =
      Spent-run v c (step (ns, r) (requested q now)) es (Spent-authorize v c ns q now h) fresh

authorized_judged :
    (digest : Text → Text) (parse_count : Text → Option ℕ) (ns : List Nonce) (secret : Text)
    (q : Request) (now : ℕ) (c : Claim) (m : ℕ)
    → (check_claim digest parse_count secret q now (some c) ns).1 ≡ authorized
    → parse_count c.nc ≡ some m
    → (judge digest parse_count secret q c m now (find_nonce c.nonce ns) ≡ authorized)
      × ((check_claim digest parse_count secret q now (some c) ns).0 ≡ count_up c.nonce m ns)
unfolding check_claim check_count record_verdict
authorized_judged digest parse_count ns secret q now c m won hm = ground (arith, won, hm)

accept_spends :
    (digest : Text → Text) (parse_count : Text → Option ℕ) (ns : List Nonce) (k : ℕ) (secret : Text)
    (q : Request) (now : ℕ) (c : Claim) (m : ℕ)
    → (authorize digest parse_count ns (k ∷ secret) q now).1 ≡ authorized
    → claim_of q ≡ some c
    → parse_count c.nc ≡ some m
    → IsOnce c.nonce ns
    → Spent c.nonce m (authorize digest parse_count ns (k ∷ secret) q now).0
unfolding authorize
accept_spends digest parse_count ns k secret q now c m won hc hm once =
    let (won', after) =
      authorized_judged digest parse_count ns (k ∷ secret) q now c m (ground (arith, won, hc)) hm in
    let (entry, found, _) =
      accepted digest parse_count (k ∷ secret) q c now m (find_nonce c.nonce ns) won' in
    rw (hc, after) (Spent-of_accepted c.nonce m ns entry once found)

Spent-denies :
    (digest : Text → Text) (parse_count : Text → Option ℕ) (ns : List Nonce) (k : ℕ) (secret : Text)
    (p : Request) (later : ℕ) (d : Claim) (m n : ℕ)
    → Spent d.nonce m ns
    → claim_of p ≡ some d
    → parse_count d.nc ≡ some n
    → n ≤ m
    → (authorize digest parse_count ns (k ∷ secret) p later).1 ≢ authorized
unfolding authorize
Spent-denies digest parse_count ns k secret p later d m n h hd hn le won =
    let (won', _) =
      authorized_judged digest parse_count ns (k ∷ secret) p later d n (ground (arith, won, hd))
        hn in
    let (entry, found, more) =
      accepted digest parse_count (k ∷ secret) p d later n (find_nonce d.nonce ns) won' in
    let least = Spent-found d.nonce m ns entry h found in absurd (omega arith)

-- Once a request was accepted under a key, its exchange is dead: after any sequence of challenges and
-- requests, no request with the same nonce and a count that is not larger is accepted. (The nonce stood
-- at most once in the table, and no later challenge draws it again.)
pub no_replay :
    {R : Type 0} (fill : ℕ → R → List ℕ × R) (digest : Text → Text) (parse_count : Text → Option ℕ)
    (k : ℕ) (secret : Text) (ns : List Nonce) (r : R) (q p : Request) (now later : ℕ) (c d : Claim)
    (m n : ℕ) (es : List Event)
    → (authorize digest parse_count ns (k ∷ secret) q now).1 ≡ authorized
    → claim_of q ≡ some c
    → parse_count c.nc ≡ some m
    → IsOnce c.nonce ns
    → let after = (authorize digest parse_count ns (k ∷ secret) q now).0 in
      IsFresh fill digest parse_count (k ∷ secret) c.nonce (after, r) es
      → claim_of p ≡ some d
      → d.nonce ≡ c.nonce
      → parse_count d.nc ≡ some n
      → n ≤ m
      → (authorize digest parse_count
          (run fill digest parse_count (k ∷ secret) (after, r) es).0
          (k ∷ secret)
          p
          later).1
        ≢ authorized
no_replay fill digest parse_count k secret ns r q p now later c d m n es won hc hm once fresh hd
      same hn le =
    let after = (authorize digest parse_count ns (k ∷ secret) q now).0 in
    let spent = accept_spends digest parse_count ns k secret q now c m won hc hm once in
    let kept = Spent-run fill digest parse_count (k ∷ secret) c.nonce m (after, r) es spent fresh in
    Spent-denies digest parse_count (run fill digest parse_count (k ∷ secret) (after, r) es).0 k
      secret p later d m n
      (subst (λ v. Spent v m (run fill digest parse_count (k ∷ secret) (after, r) es).0) (sym same)
        kept)
      hd hn le

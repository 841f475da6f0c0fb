-- ===== src/State/Tests.antt =====
-- A device with three keys in memory, and an encoding of the empty state, to run `save` on.
use esp32_streamline.Prelude.{
  ℕ, ◌≡◌, ◌≢◌, ◌⊎◌, inr, refl, arith, Bool, true, false, ◌&&◌, Option, none, some, Result, ok,
  replicate, is_none, if◌then◌else◌,
}
use esp32_streamline.Prelude.Bytes.{Text, text_eq, eq_of_text_eq, text_eq_refl, bytes}
use esp32_streamline.State.{
  PersistentState, Slot, slot_a, slot_b, Key, state_a, state_b, state_commit, Commit, Storage,
  Codec, load, save, write_prepared, prepare, committed, read_commit, parse_marker, next_commit,
  next_slot, checksum, kept, write,
}
use esp32_streamline.Hex.{encode}
use esp32_streamline.State.Laws.{IsAtomic, IsFaithful}
use esp32_streamline.State.Atomic.{load-save}

record Memory : Type 0 where
  a : Option Text
  b : Option Text
  commit : Option Text

abbrev read : Memory → Key → Result ℕ (Option Text)
read m state_a = ok m.a
read m state_b = ok m.b
read m state_commit = ok m.commit

abbrev store : Memory → Key → Text → Memory × Result ℕ (Unit {0})
store m state_a v = (record m { a = some v }, ok tt)
store m state_b v = (record m { b = some v }, ok tt)
store m state_commit v = (record m { commit = some v }, ok tt)

abbrev memory : Storage ℕ Memory
memory = record { get = read; set = store }

abbrev is_slot_a : Slot → Bool
is_slot_a slot_a = true
is_slot_a slot_b = false

abbrev is_bare : PersistentState ℕ → Bool
is_bare s =
    is_none s.config && is_none s.board_id && is_none s.board_descriptor && is_none s.profiles

abbrev bare : PersistentState ℕ
bare = record { config = none; board_id = none; board_descriptor = none; profiles = none }

abbrev zeros : Text
zeros = replicate 64 48

abbrev is_first : Commit → Bool
is_first c = is_slot_a c.active.slot && text_eq c.active.sha256 zeros && is_none c.previous

abbrev toy : Codec ℕ
toy = record {
  encode_state = λ s. if is_bare s then some (bytes "{}") else none;
  decode_state = λ t. if text_eq t (bytes "{}") then some bare else none;
  encode_commit = λ c. if is_first c then some (bytes "a") else none;
  decode_commit = λ t.
      if text_eq t (bytes "a")
      then some (record { active = record { slot = slot_a; sha256 = zeros }; previous = none })
      else none;
  digest = λ t. replicate 32 0;
}

stored_in_memory : (d : Memory) (k : Key) (v : Text) → read (store d k v).0 k ≡ ok (some v)
stored_in_memory d state_a v = refl
stored_in_memory d state_b v = refl
stored_in_memory d state_commit v = refl

apart_in_memory : (d : Memory) (k j : Key) (v : Text) → j ≢ k → read (store d k v).0 j ≡ read d j
apart_in_memory d state_a j v ne = ground arith
apart_in_memory d state_b j v ne = ground arith
apart_in_memory d state_commit j v ne = ground arith

bare_of_is_bare : (s : PersistentState ℕ) → is_bare s ≡ true → bare ≡ s
bare_of_is_bare s h = ground arith

first_of_is_first :
    (c : Commit)
    → is_first c ≡ true
    → (record { active = record { slot = slot_a; sha256 = zeros }; previous = none }) ≡ c
first_of_is_first c h = ground (arith, eq_of_text_eq c.active.sha256 zeros)

encoded_as :
    {A : Type 0} (b : Bool) (v t : Text) (a c : A)
    → (b ≡ true → a ≡ c)
    → (if b then some v else none) ≡ some t
    → (if text_eq t v then some a else none) ≡ some c
encoded_as true v t a c same h = ground (arith, text_eq_refl v, same refl)
encoded_as false v t a c same h = ground arith

memory-IsAtomic : IsAtomic memory
memory-IsAtomic = record {
  stored = λ d k v h. stored_in_memory d k v;
  refused = λ d k v. inr (stored_in_memory d k v);
  apart = λ d k j v ne. apart_in_memory d k j v ne;
}

toy-IsFaithful : IsFaithful toy
unfolding text_eq
toy-IsFaithful = record {
  state_back = λ s t h. encoded_as (is_bare s) (bytes "{}") t bare s (bare_of_is_bare s) h;
  commit_back = λ c t h. encoded_as (is_first c) (bytes "a") t _ c (first_of_is_first c) h;
  commit_fits = λ a p t la lp h. ground arith;
  first_fits = λ a t la h. ground arith;
  digest_length = λ t. refl;
}

load-save_example :
    ((load memory toy (save memory toy (record { a = none; b = none; commit = none }) bare).0
        ≡ load memory toy (record { a = none; b = none; commit = none }))
      ⊎ (load memory toy (save memory toy (record { a = none; b = none; commit = none }) bare).0
          ≡ ok (some bare)))
    × ((save memory toy (record { a = none; b = none; commit = none }) bare).1 ≡ ok tt
        → load memory toy (save memory toy (record { a = none; b = none; commit = none }) bare).0
          ≡ ok (some bare))
load-save_example =
    load-save memory toy memory-IsAtomic toy-IsFaithful
      (record { a = none; b = none; commit = none }) bare

-- The save succeeds.
save_succeeds : (save memory toy (record { a = none; b = none; commit = none }) bare).1 ≡ ok tt
unfolding save write_prepared prepare committed read_commit parse_marker next_commit next_slot
    text_eq checksum encode kept write
save_succeeds = refl

-- ===== src/Transport/WriteAll/Complete.antt =====
-- The write loop ends, and reports success only when every byte was accepted, in order.
use esp32_streamline.Prelude.{
  ℕ, zero, suc, ◌≤◌, ◌≡◌, ◌≢◌, none, some, Result, ok, err, [], ◌∷◌, ◌++◌, take, drop, length,
  take-append-drop, length-drop, arith,
}
use mathlib.Core.List.{append_assoc, append-nil}
use esp32_streamline.Prelude.Bytes.{Text}
use esp32_streamline.Transport.WriteAll.{write_loop, write_all_with}

-- The count of a successful write.
abbrev result_or : {E : Type 0} → Result E ℕ → ℕ
result_or (ok n) = n
result_or (err e) = 0

module _ {W E : Type 0} (write : W → Text → W × Result E ℕ) where
  write_loop_total :
      (fuel : ℕ) (w : W) (bytes : Text) → length bytes ≤ fuel → write_loop write fuel w bytes ≢ none
  unfolding write_loop
  write_loop_total fuel w [] h = λ e. cc
  write_loop_total zero w (b ∷ rest) h = absurd (omega arith)
  write_loop_total (suc fuel) w (b ∷ rest) h = ground (
    arith,
    length-drop (result_or (write w (b ∷ rest)).1) (b ∷ rest),
    write_loop_total fuel (write w (b ∷ rest)).0
        (drop (result_or (write w (b ∷ rest)).1) (b ∷ rest)),
  )

  -- What the code relies on of the transport: a write that reports `n` bytes, `n` at most what it was
  -- offered, has sent the first `n` of them. `sent` is all that the peer was sent so far.
  abbrev pub SendsPrefix : (W → Text) → Type 0
  SendsPrefix sent =
      (w : W) (bytes : Text) (n : ℕ)
      → (write w bytes).1 ≡ ok n
      → n ≤ length bytes
      → sent (write w bytes).0 ≡ sent w ++ take n bytes

  write_loop_sent :
      (sent : W → Text)
      → SendsPrefix sent
      → (fuel : ℕ) (w w' : W) (bytes : Text) → write_loop write fuel w bytes ≡ some (w', ok tt)
      → sent w' ≡ sent w ++ bytes
  unfolding write_loop
  write_loop_sent sent law fuel w w' [] h = ground (arith, append-nil (sent w))
  write_loop_sent sent law zero w w' (b ∷ rest) h = cc
  write_loop_sent sent law (suc fuel) w w' (b ∷ rest) h =
      let n = result_or (write w (b ∷ rest)).1 in
      let next = (write w (b ∷ rest)).0 in
      ground (
        arith,
        law w (b ∷ rest) n,
        write_loop_sent sent law fuel next w' (drop n (b ∷ rest)),
        append_assoc (sent w) (take n (b ∷ rest)) (drop n (b ∷ rest)),
        take-append-drop n (b ∷ rest),
      )

  -- The loop always ends, whatever the transport does; and where it reports success, all the bytes were
  -- sent, in order, and nothing else. (A write that reports a count within what it was offered has sent
  -- exactly that prefix.)
  pub write_all_with_lem :
      (sent : W → Text)
      → SendsPrefix sent
      → (w : W) (bytes : Text)
      → (write_all_with write w bytes ≢ none)
        × ((w' : W) → write_all_with write w bytes ≡ some (w', ok tt) → sent w' ≡ sent w ++ bytes)
  unfolding write_all_with
  write_all_with_lem sent law w bytes = (
    write_loop_total (length bytes) w bytes (omega arith),
    λ w' h. write_loop_sent sent law (length bytes) w w' bytes h,
  )

-- ===== src/Bench/Socket/Stream.antt =====
-- The frames of a byte stream, however TCP cuts it up.
use mathlib.Core.List.{append_assoc, append-nil}
use chat_crdt.Prelude.{
  ℕ, zero, suc, ◌≤◌, ◌≡◌, refl, sym, ap, ◌∙◌, none, some, List, [], ◌∷◌, ◌++◌, length, Option-cases,
  inl, inr, nat_Eq, arith,
}
use chat_crdt.Bench.Frame.{Bytes, next_frame}
use chat_crdt.Bench.Frame.Reading.{next_frame-append, next_frame-length}
use chat_crdt.Bench.Socket.{
  Node, Socket, Step, handle_frame, handle_close, emit_message, emit_close, write_frame, process,
  process_buffer, on_data, feed,
}

abbrev pub with_buffer : Bytes → Socket → Socket
with_buffer b s = record s { recv_buffer = b }

-- One step after another.
abbrev pub and_then : Step → (Socket → Step) → Step
and_then (s, now) f = let (s', later) = f s in (s', now ++ later)

and_then_assoc :
    (r : Step) (f g : Socket → Step)
    → and_then (and_then r f) g ≡ and_then r (λ s. and_then (f s) g)
and_then_assoc (s, now) f g =
    ap (λ es. ((g (f s).0).0, es)) (append_assoc now (f s).1 (g (f s).0).1)

nothing_in : (b : Bytes) → length b ≤ 0 → next_frame b ≡ none
nothing_in b h = elim (Option-cases (next_frame b)) [
  | inl e ↦ e
  | inr ((f, rest), e) ↦ absurd (omega (arith, next_frame-length b f rest e))
]

abbrev pub joined : Bytes → List Bytes → Bytes
joined chunk [] = chunk
joined chunk (c ∷ chunks) = chunk ++ joined c chunks

module _ (n : Node) where
  -- Handling a frame neither reads nor changes what is buffered behind it.
  handle_frame-buffer :
      (opcode : ℕ) (payload b : Bytes) (s : Socket)
      → handle_frame n opcode payload (with_buffer b s)
        ≡ (with_buffer b (handle_frame n opcode payload s).0, (handle_frame n opcode payload s).1)
  unfolding handle_frame handle_close emit_message emit_close write_frame
  handle_frame-buffer opcode payload b s = ground arith

  abbrev pub handled : ℕ → Bytes → Bytes → Socket → Step
  handled opcode payload rest s = handle_frame n opcode payload (with_buffer rest s)

  left_buffered :
      (opcode : ℕ) (payload rest : Bytes) (s : Socket)
      → (handled opcode payload rest s).0.recv_buffer ≡ rest
  left_buffered opcode payload rest s =
      ap (λ (r : Step). r.0.recv_buffer) (handle_frame-buffer opcode payload rest s)

  process-none : (f : ℕ) (s : Socket) → next_frame s.recv_buffer ≡ none → process n f s ≡ (s, [])
  unfolding process
  process-none zero s h = refl
  process-none (suc f) s h = rw (process, h) refl

  process-some :
      (f : ℕ) (s : Socket) (opcode : ℕ) (payload rest : Bytes)
      → next_frame s.recv_buffer ≡ some ((opcode, payload), rest)
      → process n (suc f) s ≡ and_then (handled opcode payload rest s) (process n f)
  unfolding process
  process-some f s opcode payload rest h = rw (process, h) refl

  process-fuel :
      (f g : ℕ) (s : Socket)
      → length s.recv_buffer ≤ f
      → length s.recv_buffer ≤ g
      → process n f s ≡ process n g s
  process-fuel zero g s h k =
      let e = nothing_in s.recv_buffer h in process-none zero s e ∙ sym (process-none g s e)
  process-fuel (suc f) zero s h k =
      let e = nothing_in s.recv_buffer k in process-none (suc f) s e ∙ sym (process-none zero s e)
  process-fuel (suc f) (suc g) s h k = elim (Option-cases (next_frame s.recv_buffer)) [
    | inl e ↦ process-none (suc f) s e ∙ sym (process-none (suc g) s e)
    | inr (((opcode, payload), rest), e) ↦
        let s' = (handled opcode payload rest s).0 in
        let b = ap length (left_buffered opcode payload rest s) in
        let l = next_frame-length s.recv_buffer (opcode, payload) rest e in
        process-some f s opcode payload rest e
        ∙ ap (λ (r : Step). (r.0, (handled opcode payload rest s).1 ++ r.1))
            (process-fuel f g s' (omega arith) (omega arith))
        ∙ sym (process-some g s opcode payload rest e)
  ]

  settled_fuel :
      (fuel : ℕ) (s : Socket)
      → length s.recv_buffer ≤ fuel
      → next_frame (process n fuel s).0.recv_buffer ≡ none
  unfolding process
  settled_fuel zero s h = nothing_in s.recv_buffer h
  settled_fuel (suc fuel) s h = elim (Option-cases (next_frame s.recv_buffer)) [
    | inl e ↦ ap (λ (r : Step). next_frame r.0.recv_buffer) (process-none (suc fuel) s e) ∙ e
    | inr (((opcode, payload), rest), e) ↦
        let b = ap length (left_buffered opcode payload rest s) in
        let l = next_frame-length s.recv_buffer (opcode, payload) rest e in
        ap (λ (r : Step). next_frame r.0.recv_buffer) (process-some fuel s opcode payload rest e)
        ∙ settled_fuel fuel (handled opcode payload rest s).0 (omega arith)
  ]

  -- The rounds are enough: no whole frame is left in the buffer.
  process_buffer-settled : (s : Socket) → next_frame (process_buffer n s).0.recv_buffer ≡ none
  unfolding process_buffer
  process_buffer-settled s = settled_fuel (length s.recv_buffer) s (omega arith)

  pub process_done : (s : Socket) → next_frame s.recv_buffer ≡ none → process_buffer n s ≡ (s, [])
  unfolding process_buffer
  process_done s h = process-none (length s.recv_buffer) s h

  pub process_next :
      (s : Socket) (opcode : ℕ) (payload rest : Bytes)
      → next_frame s.recv_buffer ≡ some ((opcode, payload), rest)
      → process_buffer n s ≡ and_then (handled opcode payload rest s) (process_buffer n)
  unfolding process_buffer
  process_next s opcode payload rest h =
      let len = length s.recv_buffer in
      let s' = (handled opcode payload rest s).0 in
      let b = ap length (left_buffered opcode payload rest s) in
      let l = next_frame-length s.recv_buffer (opcode, payload) rest h in
      process-fuel len (suc len) s (omega arith) (omega arith)
      ∙ process-some len s opcode payload rest h
      ∙ ap (λ (r : Step). (r.0, (handled opcode payload rest s).1 ++ r.1))
          (process-fuel len (length s'.recv_buffer) s' (omega arith) (omega arith))

  -- What is done when more bytes come is done when they are there from the start.
  process_more_fuel :
      (fuel : ℕ) (s : Socket) (more : Bytes)
      → length s.recv_buffer ≤ fuel
      → process_buffer n (with_buffer (s.recv_buffer ++ more) s)
        ≡ and_then (process_buffer n s) (on_data n more)
  unfolding on_data
  process_more_fuel zero s more h =
      ap (λ (r : Step). and_then r (on_data n more))
        (sym (process_done s (nothing_in s.recv_buffer h)))
  process_more_fuel (suc fuel) s more h = elim (Option-cases (next_frame s.recv_buffer)) [
    | inl e ↦ ap (λ (r : Step). and_then r (on_data n more)) (sym (process_done s e))
    | inr (((opcode, payload), rest), e) ↦
        let (s', now) = handle_frame n opcode payload s in
        let longer = next_frame-append s.recv_buffer (opcode, payload) rest e more in
        let l = next_frame-length s.recv_buffer (opcode, payload) rest e in
        process_next (with_buffer (s.recv_buffer ++ more) s) opcode payload (rest ++ more) longer
        ∙ ap (λ (r : Step). and_then r (process_buffer n))
            (handle_frame-buffer opcode payload (rest ++ more) s)
        ∙ ap (λ (r : Step). (r.0, now ++ r.1))
            (process_more_fuel fuel (with_buffer rest s') more (omega arith))
        ∙ sym (and_then_assoc (with_buffer rest s', now) (process_buffer n) (on_data n more))
        ∙ ap (λ (r : Step). and_then (and_then r (process_buffer n)) (on_data n more))
            (sym (handle_frame-buffer opcode payload rest s))
        ∙ ap (λ (r : Step). and_then r (on_data n more))
            (sym (process_next s opcode payload rest e))
  ]

  pub process_more :
      (s : Socket) (more : Bytes)
      → process_buffer n (with_buffer (s.recv_buffer ++ more) s)
        ≡ and_then (process_buffer n s) (on_data n more)
  process_more s more = process_more_fuel (length s.recv_buffer) s more (omega arith)

  pub on_data-append :
      (c d : Bytes) (s : Socket) → on_data n (c ++ d) s ≡ and_then (on_data n c s) (on_data n d)
  unfolding on_data
  on_data-append c d s =
      ap (λ b. process_buffer n (with_buffer b s)) (sym (append_assoc s.recv_buffer c d))
      ∙ process_more (with_buffer (s.recv_buffer ++ c) s) d

  feed_one : (chunk : Bytes) (s : Socket) → feed n (chunk ∷ []) s ≡ on_data n chunk s
  unfolding feed
  feed_one chunk s = ap (λ es. ((on_data n chunk s).0, es)) (append-nil (on_data n chunk s).1)

  -- The connection's state and what it does depend on the bytes that came, not on how they were cut.
  pub chunks_joined :
      (chunk : Bytes) (chunks : List Bytes) (s : Socket)
      → feed n (chunk ∷ chunks) s ≡ on_data n (joined chunk chunks) s
  unfolding feed
  chunks_joined chunk [] s = feed_one chunk s
  chunks_joined chunk (c ∷ chunks) s =
      ap (λ (r : Step). (r.0, (on_data n chunk s).1 ++ r.1))
        (chunks_joined c chunks (on_data n chunk s).0)
      ∙ sym (on_data-append chunk (joined c chunks) s)

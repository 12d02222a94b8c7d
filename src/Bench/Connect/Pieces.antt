-- ===== src/Bench/Connect/Pieces.antt =====
-- The handshake, however TCP cuts the response up.
use mathlib.Core.List.{append_assoc}
use chat_crdt.Prelude.{
  ℕ, zero, suc, ◌≤◌, ◌≡◌, refl, sym, ap, ◌∙◌, Bool, true, Option, none, some, List, [], ◌∷◌, ◌++◌,
  Text, drop, length, starts_with, Option-cases, Bool-cases, inl, inr, if◌then◌else◌, arith,
}
use chat_crdt.Bench.Frame.{Bytes}
use chat_crdt.Bench.Socket.{Node, Step, Effect, destroyed, process_buffer, on_data}
use chat_crdt.Bench.Socket.Stream.{process_more, on_data-append}
use chat_crdt.Bench.Connect.{
  crlf, with_first, split_header, failure, Connection, handshaking, rejected, opened, Outcome,
  resolved, did, all_did, new_socket, on_tcp_data, Failure,
}

never_some : {A : Type 0} {a : A} → none ≡ some a → ⊥
never_some h = cc

starts_with-longer :
    (p t more : Text) → length p ≤ length t → starts_with p (t ++ more) ≡ starts_with p t
unfolding starts_with
starts_with-longer [] t more h = refl
starts_with-longer (c ∷ p) [] more h = absurd (omega arith)
starts_with-longer (c ∷ p) (d ∷ t) more h = ground (arith, starts_with-longer p t more)

drop-longer : (n : ℕ) (t more : Text) → n ≤ length t → drop n (t ++ more) ≡ drop n t ++ more
drop-longer zero t more h = refl
drop-longer (suc n) [] more h = absurd (omega arith)
drop-longer (suc n) (c ∷ t) more h = drop-longer n t more (omega arith)

starts_with-length : (p t : Text) → starts_with p t ≡ true → length p ≤ length t
unfolding starts_with
starts_with-length [] t h = omega arith
starts_with-length (c ∷ p) [] h = cc
starts_with-length (c ∷ p) (d ∷ t) h = ground (arith, starts_with-length p t)

abbrev behind : Bytes → Option (Bytes × Bytes) → Option (Bytes × Bytes)
behind more none = none
behind more (some (header, rest)) = some (header, rest ++ more)

abbrev split_here : Bytes → Bool → ℕ → Option (Bytes × Bytes) → Option (Bytes × Bytes)
split_here tail b c later = if b then some ([], tail) else with_first c later

-- An empty line that was there is the first one as well when more has come.
split_header-append :
    (b more header rest : Bytes)
    → split_header b ≡ some (header, rest)
    → (split_header (b ++ more) ≡ some (header, rest ++ more)) × (4 ≤ length b)
unfolding split_header
split_header-append [] more header rest h = cc
split_header-append (c ∷ b) more header rest h =
    let here = λ (t : Bool). split_here (drop 4 (c ∷ b)) t c (split_header b) in
    let longer = λ (t : Bool). split_here (drop 4 (c ∷ b ++ more)) t c (split_header (b ++ more)) in
    elim (Bool-cases (starts_with (crlf ++ crlf) (c ∷ b))) [
      | inl e ↦
          let l = starts_with-length (crlf ++ crlf) (c ∷ b) e in
          let e' = starts_with-longer (crlf ++ crlf) (c ∷ b) more l ∙ e in
          (
            ap longer e'
                ∙ ap (λ r. some ([], r)) (drop-longer 4 (c ∷ b) more l)
                ∙ ap (behind more) (sym (ap here e) ∙ h),
            l,
          )
      | inr e ↦ elim (Option-cases (split_header b)) [
        | inl later ↦ absurd (never_some (sym (ap here e ∙ ap (with_first c) later) ∙ h))
        | inr ((header', rest'), later) ↦
            let (same, l) = split_header-append b more header' rest' later in
            let e' = starts_with-longer (crlf ++ crlf) (c ∷ b) more (omega arith) ∙ e in
            (
              ap longer e'
                  ∙ ap (with_first c) same
                  ∙ ap (behind more) (sym (ap here e ∙ ap (with_first c) later) ∙ h),
              omega arith,
            )
      ]
    ]

module _ (n : Node) (expected : Text) where
  abbrev pub Run : Type 0
  Run = Connection × List Outcome

  abbrev pub and_next : Run → (Connection → Run) → Run
  and_next (c, now) f = let (c', later) = f c in (c', now ++ later)

  all_did-append : (es fs : List Effect) → all_did (es ++ fs) ≡ all_did es ++ all_did fs
  all_did-append [] fs = refl
  all_did-append (e ∷ es) fs = ap (λ l. did e ∷ l) (all_did-append es fs)

  abbrev pub run_of : List Outcome → Step → Run
  run_of before (s, es) = (opened s, before ++ all_did es)

  abbrev pub judged : Option Failure → Bytes → Run
  judged none rest = run_of (resolved ∷ []) (process_buffer n (new_socket rest))
  judged (some f) rest = (rejected f, did destroyed ∷ [])

  abbrev pub decided : Option (Bytes × Bytes) → Bytes → Run
  decided none buffer = (handshaking buffer, [])
  decided (some (header, rest)) buffer = judged (failure n expected (n.utf8_decode header)) rest

  judged-append :
      (o : Option Failure) (rest d : Bytes)
      → judged o (rest ++ d) ≡ and_next (judged o rest) (on_tcp_data n expected d)
  unfolding on_tcp_data
  judged-append (some f) rest d = refl
  judged-append none rest d =
      let (s, es) = process_buffer n (new_socket rest) in
      ap (run_of (resolved ∷ [])) (process_more n (new_socket rest) d)
      ∙ ap (λ l. (opened (on_data n d s).0, resolved ∷ l)) (all_did-append es (on_data n d s).1)

  pub begun :
      (chunk b : Bytes)
      → on_tcp_data n expected chunk (handshaking b)
        ≡ decided (split_header (b ++ chunk)) (b ++ chunk)
  unfolding on_tcp_data
  begun chunk b = elim (Option-cases (split_header (b ++ chunk))) [
    | inl e ↦ rw (e, on_tcp_data) refl
    | inr ((header, rest), e) ↦ elim (Option-cases (failure n expected (n.utf8_decode header))) [
      | inl f ↦ rw (e, f, on_tcp_data) refl
      | inr (x, f) ↦ rw (e, f, on_tcp_data) refl
    ]
  ]

  pub on_tcp_data-append :
      (c d : Bytes) (k : Connection)
      → on_tcp_data n expected (c ++ d) k
        ≡ and_next (on_tcp_data n expected c k) (on_tcp_data n expected d)
  unfolding on_tcp_data
  on_tcp_data-append c d (opened s) =
      ap (run_of []) (on_data-append n c d s)
      ∙ ap (λ l. (opened (on_data n d (on_data n c s).0).0, l))
          (all_did-append (on_data n c s).1 (on_data n d (on_data n c s).0).1)
  on_tcp_data-append c d (rejected f) = refl
  on_tcp_data-append c d (handshaking b) =
      let next = on_tcp_data n expected d in
      begun (c ++ d) b
      ∙ ap (λ x. decided (split_header x) x) (sym (append_assoc b c d))
      ∙ (elim (Option-cases (split_header (b ++ c))) [
        | inl e ↦ sym (begun d (b ++ c)) ∙ ap (λ o. and_next (decided o (b ++ c)) next) (sym e)
        | inr ((header, rest), e) ↦
            ap (λ o. decided o ((b ++ c) ++ d)) (split_header-append (b ++ c) d header rest e).0
            ∙ judged-append (failure n expected (n.utf8_decode header)) rest d
            ∙ ap (λ o. and_next (decided o (b ++ c)) next) (sym e)
      ])
      ∙ ap (λ r. and_next r next) (sym (begun c b))

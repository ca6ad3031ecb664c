-- ===== src/Server/Stream.antt =====
-- The loop of handleConnection over a stream that arrives in pieces.
use fear_online_server.Prelude.{
  ℕ, ◌≡◌, refl, sym, ap, ◌∙◌, Bool, true, false, arith, List, [], ◌∷◌, ◌++◌, length, length-append,
  append_assoc, append-nil, none, some, Option-cases, inl, inr,
}
use mathlib.Core.Path.{fun_ext}
use fear_online_server.Wire.Frame.{Frame, frame_round, parse_frames}
use fear_online_server.Wire.Frame.Stream.{behind, parse_frames-append, parse_frames-append_error}
use fear_online_server.Server.{
  Session, Config, Handler, handle_frame, if_ok, again, after_parse, handle_frames, handle_reads,
}

-- What all the reads give together.
unfoldable pub joined : List (List ℕ) → List ℕ
joined [] = []
joined (chunk ∷ reads) = chunk ++ joined reads

-- Bytes in which no frame is complete.
abbrev Waits : List ℕ → Type 0
Waits pending = ((parse_frames pending).frames ≡ []) × ((parse_frames pending).error ≡ none)

no_more : (fs gs : List Frame) → fs ≡ fs ++ gs → gs ≡ []
no_more fs [] e = refl
no_more fs (g ∷ gs) e = absurd (omega (arith, ap length e, length-append fs (g ∷ gs)))

-- What an accepted parse leaves holds no further frame.
remaining-Waits : (a : List ℕ) → (parse_frames a).error ≡ none → Waits (parse_frames a).remaining
remaining-Waits a e =
    let rest = (parse_frames a).remaining in
    let same : parse_frames a ≡ behind (parse_frames a).frames (parse_frames rest) =
      ap parse_frames (sym (append-nil a))
      ∙ parse_frames-append a [] e
      ∙ ap (λ r. behind (parse_frames a).frames (parse_frames r)) (append-nil rest) in
    (
      no_more (parse_frames a).frames (parse_frames rest).frames (ap (λ p. p.frames) same),
      sym (ap (λ p. p.error) same) ∙ e,
    )

accepted_before :
    (a b : List ℕ) → (parse_frames (a ++ b)).error ≡ none → (parse_frames a).error ≡ none
accepted_before a b e = elim (Option-cases (parse_frames a).error) [
  | inl q ↦ q
  | inr (x, q) ↦ absurd (
      let same : (parse_frames (a ++ b)).error ≡ some x =
        ap (λ p. p.error) (parse_frames-append_error a b x q) in
      cc)
]

module _ {W : Type 0} (config : Config) (handlers : List (ℕ × Handler W)) where
  abbrev pub state_of : Bool × Session × W → Session × W
  state_of (ok, s, w) = (s, w)

  if_ok_assoc :
      (q : Bool × Session × W) (f g : Session × W → Bool × Session × W)
      → if_ok config handlers (if_ok config handlers q f) g
        ≡ if_ok config handlers q (λ st. if_ok config handlers (f st) g)
  if_ok_assoc (true, s, w) f g = refl
  if_ok_assoc (false, s, w) f g = refl

  handle_frames-append :
      (fs gs : List Frame) (st : Session × W)
      → handle_frames config handlers (fs ++ gs) st
        ≡ if_ok config handlers
            (handle_frames config handlers fs st)
            (handle_frames config handlers gs)
  unfolding handle_frames
  handle_frames-append [] gs (s, w) = refl
  handle_frames-append (f ∷ fs) gs st =
      ap (if_ok config handlers (handle_frame config handlers f st))
        (fun_ext (handle_frames-append fs gs))
      ∙ sym (
          if_ok_assoc (handle_frame config handlers f st) (handle_frames config handlers fs)
            (handle_frames config handlers gs))

  again_lem :
      (q : Bool × Session × W) (loop : Session × W → Session × W)
      (next : Session × W → Bool × Session × W)
      → ((st : Session × W) → loop st ≡ state_of (next st))
      → again config handlers q loop ≡ state_of (if_ok config handlers q next)
  again_lem (true, s, w) loop next h = h (s, w)
  again_lem (false, s, w) loop next h = refl

  reads_step :
      (chunk : List ℕ) (reads : List (List ℕ)) (pending : List ℕ) (st : Session × W)
      → (parse_frames (pending ++ chunk)).error ≡ none
      → let p = parse_frames (pending ++ chunk) in
        handle_reads config handlers (chunk ∷ reads) pending st
        ≡ again config handlers
            (handle_frames config handlers p.frames st)
            (handle_reads config handlers reads p.remaining)
  unfolding handle_reads
  reads_step chunk reads pending st e =
      ap
        (λ x.
          after_parse config handlers x (parse_frames (pending ++ chunk)).frames st
            (handle_reads config handlers reads (parse_frames (pending ++ chunk)).remaining))
        e

  handle_reads_from :
      (reads : List (List ℕ)) (pending : List ℕ) (st : Session × W)
      → Waits pending
      → (parse_frames (pending ++ joined reads)).error ≡ none
      → handle_reads config handlers reads pending st
        ≡ state_of
            (handle_frames config handlers (parse_frames (pending ++ joined reads)).frames st)
  unfolding handle_reads handle_frames joined
  handle_reads_from [] pending (s, w) h e = sym (
      ap (λ fs. state_of (handle_frames config handlers fs (s, w)))
        (ap (λ r. (parse_frames r).frames) (append-nil pending) ∙ h.0))
  handle_reads_from (chunk ∷ reads) pending st h e =
      let a = pending ++ chunk in
      let split : pending ++ (chunk ++ joined reads) ≡ a ++ joined reads =
        sym (append_assoc pending chunk (joined reads)) in
      let whole : (parse_frames (a ++ joined reads)).error ≡ none =
        ap (λ r. (parse_frames r).error) (sym split) ∙ e in
      let ok = accepted_before a (joined reads) whole in
      let p = parse_frames a in
      let parts : parse_frames (a ++ joined reads)
          ≡ behind p.frames (parse_frames (p.remaining ++ joined reads)) =
        parse_frames-append a (joined reads) ok in
      reads_step chunk reads pending st ok
      ∙ again_lem (handle_frames config handlers p.frames st)
          (handle_reads config handlers reads p.remaining)
          (handle_frames config handlers (parse_frames (p.remaining ++ joined reads)).frames)
          (λ later.
            handle_reads_from reads p.remaining later (remaining-Waits a ok)
              (ap (λ q. q.error) (sym parts) ∙ whole))
      ∙ ap state_of (
          sym
            (handle_frames-append p.frames (parse_frames (p.remaining ++ joined reads)).frames st))
      ∙ ap (λ q. state_of (handle_frames config handlers q.frames st)) (sym parts)
      ∙ ap (λ r. state_of (handle_frames config handlers (parse_frames r).frames st)) (sym split)

  -- How the network cuts the stream into reads does not matter: if ParseFrames accepts the whole stream,
  -- then handling it read by read ends in the state that handling the frames of the whole stream gives,
  -- also when the error of a frame ends the connection in between.
  pub handle_reads-joined :
      (reads : List (List ℕ)) (st : Session × W)
      → (parse_frames (joined reads)).error ≡ none
      → handle_reads config handlers reads [] st
        ≡ state_of (handle_frames config handlers (parse_frames (joined reads)).frames st)
  unfolding parse_frames frame_round
  handle_reads-joined reads st e = handle_reads_from reads [] st (refl, refl) e

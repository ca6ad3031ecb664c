-- ===== src/Wire/Frame/Stream.antt =====
-- ParseFrames over a stream that arrives in pieces.
use mathlib.Core.Logic.{◌≢◌}
use fear_online_server.Prelude.{
  ℕ, zero, suc, ◌≤◌, ◌<◌, ◌≡◌, refl, sym, ap, ◌∙◌, ◌⊎◌, inl, inr, arith, List, [], ◌∷◌, ◌++◌,
  length, length-append, append_assoc, append-nil, none, some,
}
use fear_online_server.Wire.Frame.{
  Frame, FrameError, stuck, Round, wait, next, fail, frame_round, continue, Parsed, parse_loop,
  parse_frames,
}
use fear_online_server.Wire.Frame.Step.{
  extend, frame_round_takes, frame_round-append, frame_round-ne-stuck,
}

Round-cases :
    (r : Round)
    → (r ≡ wait) ⊎ ((e : FrameError) × (r ≡ fail e)) ⊎ ((f : Frame) × (s : List ℕ) × (r ≡ next f s))
Round-cases wait = inl refl
Round-cases (fail e) = inr (inl (e, refl))
Round-cases (next f s) = inr (inr (f, s, refl))

pub parse_loop_step :
    (n : ℕ) (rest : List ℕ) (fs : List Frame) (r : Round)
    → frame_round rest ≡ r
    → parse_loop (suc n) rest fs ≡ continue r rest fs (parse_loop n)
unfolding parse_loop
parse_loop_step n rest fs r e = ap (λ s. continue s rest fs (parse_loop n)) e

-- The fuel does not matter once there is enough of it.
pub parse_loop_fuel :
    (n m : ℕ) (rest : List ℕ) (fs : List Frame)
    → length rest < n
    → length rest < m
    → parse_loop n rest fs ≡ parse_loop m rest fs
parse_loop_fuel zero m rest fs h k = absurd (omega arith)
parse_loop_fuel (suc n) zero rest fs h k = absurd (omega arith)
parse_loop_fuel (suc n) (suc m) rest fs h k = elim (Round-cases (frame_round rest)) [
  | inl e ↦ parse_loop_step n rest fs _ e ∙ sym (parse_loop_step m rest fs _ e)
  | inr (inl (x, e)) ↦ parse_loop_step n rest fs _ e ∙ sym (parse_loop_step m rest fs _ e)
  | inr (inr (f, s, e)) ↦
      parse_loop_step n rest fs _ e
      ∙ parse_loop_fuel n m s (fs ++ (f ∷ [])) (omega (arith, frame_round_takes rest f s e))
          (omega (arith, frame_round_takes rest f s e))
      ∙ sym (parse_loop_step m rest fs _ e)
]

abbrev Resumes : ℕ → List ℕ → Parsed → Parsed → Type 0
Resumes m b p q =
    (p.error ≡ none → q ≡ parse_loop m (p.remaining ++ b) p.frames)
    × ((x : FrameError)
        → p.error ≡ some x
        → q ≡ record { frames = p.frames; remaining = p.remaining ++ b; error = some x })

parse_loop-append :
    (n m : ℕ) (a b : List ℕ) (fs : List Frame)
    → length a < n
    → length (a ++ b) < m
    → Resumes m b (parse_loop n a fs) (parse_loop m (a ++ b) fs)
parse_loop-append zero m a b fs h k = absurd (omega arith)
parse_loop-append (suc n) zero a b fs h k = absurd (omega arith)
parse_loop-append (suc n) (suc m) a b fs h k = elim (Round-cases (frame_round a)) [
  | inl e ↦ rw (parse_loop_step n a fs wait e) (λ _. refl, λ x q. cc)
  | inr (inl (x, e)) ↦
      rw
        (
          parse_loop_step n a fs (fail x) e,
          parse_loop_step m (a ++ b) fs (fail x) (later e (λ q. cc)),
        )
        (λ q. cc, λ y q. cc)
  | inr (inr (f, s, e)) ↦
      rw (parse_loop_step n a fs (next f s) e, step_over f s e)
        (parse_loop-append n (suc m) s b (fs ++ (f ∷ [])) (omega (arith, frame_round_takes a f s e))
          (shorter f s e))
]
  where
    later :
        {r : Round} → frame_round a ≡ r → frame_round a ≢ wait → frame_round (a ++ b) ≡ extend b r
    later e w = frame_round-append a b w ∙ ap (extend b) e

    shorter : (f : Frame) (s : List ℕ) → frame_round a ≡ next f s → length (s ++ b) < suc m
    shorter f s e = omega (arith, frame_round_takes a f s e, length-append s b, length-append a b)

    step_over :
        (f : Frame) (s : List ℕ)
        → frame_round a ≡ next f s
        → parse_loop (suc m) (a ++ b) fs ≡ parse_loop (suc m) (s ++ b) (fs ++ (f ∷ []))
    step_over f s e =
        parse_loop_step m (a ++ b) fs (next f (s ++ b)) (later e (λ q. cc))
        ∙ parse_loop_fuel m (suc m) (s ++ b) (fs ++ (f ∷ []))
            (omega (arith, frame_round_takes a f s e, length-append s b, length-append a b))
            (omega (arith, shorter f s e))

-- The frames in hand stand in front of those that the loop adds.
abbrev pub behind : List Frame → Parsed → Parsed
behind fs p = record p { frames = fs ++ p.frames }

pub parse_loop-behind :
    (n : ℕ) (rest : List ℕ) (fs gs : List Frame)
    → parse_loop n rest (fs ++ gs) ≡ behind fs (parse_loop n rest gs)
unfolding parse_loop
parse_loop-behind zero rest fs gs = refl
parse_loop-behind (suc n) rest fs gs = elim (Round-cases (frame_round rest)) [
  | inl e ↦ rw (e, parse_loop)
  | inr (inl (x, e)) ↦ rw (e, parse_loop)
  | inr (inr (f, s, e)) ↦
      rw (e, parse_loop)
        (ap (parse_loop n s) (append_assoc fs gs (f ∷ []))
          ∙ parse_loop-behind n s fs (gs ++ (f ∷ [])))
]

parse_loop_remaining :
    (n : ℕ) (rest : List ℕ) (fs : List Frame)
    → length (parse_loop n rest fs).remaining ≤ length rest
unfolding parse_loop
parse_loop_remaining zero rest fs = omega arith
parse_loop_remaining (suc n) rest fs = elim (Round-cases (frame_round rest)) [
  | inl e ↦ rw (e, parse_loop) (omega arith)
  | inr (inl (x, e)) ↦ rw (e, parse_loop) (omega arith)
  | inr (inr (f, s, e)) ↦
      rw (e, parse_loop)
        (omega (arith, parse_loop_remaining n s (fs ++ (f ∷ [])), frame_round_takes rest f s e))
]

parse_loop-ne-stuck :
    (n : ℕ) (rest : List ℕ) (fs : List Frame)
    → length rest < n
    → (parse_loop n rest fs).error ≢ some stuck
unfolding parse_loop
parse_loop-ne-stuck zero rest fs h = absurd (omega arith)
parse_loop-ne-stuck (suc n) rest fs h = elim (Round-cases (frame_round rest)) [
  | inl e ↦ rw (e, parse_loop) (λ q. cc)
  | inr (inl (x, e)) ↦ rw (e, parse_loop) (λ q. frame_round-ne-stuck rest (cc))
  | inr (inr (f, s, e)) ↦
      rw (e, parse_loop)
        (parse_loop-ne-stuck n s (fs ++ (f ∷ [])) (omega (arith, frame_round_takes rest f s e)))
]

-- ParseFrames ends by a test of its loop, on every input.
pub parse_frames-ne-stuck : (buf : List ℕ) → (parse_frames buf).error ≢ some stuck
unfolding parse_frames
parse_frames-ne-stuck buf = parse_loop-ne-stuck (suc (length buf)) buf [] (omega arith)

-- If ParseFrames accepts what has arrived, then parsing all of it again together with the bytes that
-- come later gives the same frames, the same rest and the same error as parsing those bytes behind
-- the unconsumed rest.
pub parse_frames-append :
    (a b : List ℕ)
    → (parse_frames a).error ≡ none
    → parse_frames (a ++ b)
      ≡ behind (parse_frames a).frames (parse_frames ((parse_frames a).remaining ++ b))
unfolding parse_frames
parse_frames-append a b e =
    (parse_loop-append (suc (length a)) (suc (length (a ++ b))) a b [] (omega arith)
        (omega arith)).0
      e
    ∙ parse_loop_fuel (suc (length (a ++ b))) (suc (length (rest ++ b))) (rest ++ b) fs
        (omega (
          arith,
          length-append a b,
          length-append rest b,
          parse_loop_remaining (suc (length a)) a [],
        ))
        (omega arith)
    ∙ ap (parse_loop (suc (length (rest ++ b))) (rest ++ b)) (sym (append-nil fs))
    ∙ parse_loop-behind (suc (length (rest ++ b))) (rest ++ b) fs []
  where
    rest : List ℕ
    rest = (parse_loop (suc (length a)) a []).remaining

    fs : List Frame
    fs = (parse_loop (suc (length a)) a []).frames

-- If ParseFrames refuses what has arrived, then it refuses it with any bytes behind it, with the
-- same frames and the same error.
pub parse_frames-append_error :
    (a b : List ℕ) (x : FrameError)
    → (parse_frames a).error ≡ some x
    → parse_frames (a ++ b) ≡ record {
      frames = (parse_frames a).frames;
      remaining = (parse_frames a).remaining ++ b;
      error = some x;
    }
unfolding parse_frames
parse_frames-append_error a b x e =
    (parse_loop-append (suc (length a)) (suc (length (a ++ b))) a b [] (omega arith)
        (omega arith)).1
      x e

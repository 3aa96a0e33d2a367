-- ===== src/Protocol/Frame/Stream.antt =====
-- A byte stream decodes to the same frames however it is cut into chunks.
use veilroom.Prelude.{
  Bytes, List, [], ap, arith, inl, inr, length, length-append, refl, subst, suc, sym, zero, ℕ, ◌++◌,
  ◌+◌, ◌<◌, ◌∙◌, ◌∷◌, ◌≡◌, ◌≢◌, ◌≤◌, ◌⊎◌,
}
use mathlib.Core.List.{append_assoc, append-nil, flatten}
use veilroom.Protocol.Frame.{
  Frame, FrameError, Result, ok, err, Round, break, fail, took, round, FrameDecoder, feed_loop,
  frame_header_len, feed,
}
use veilroom.Protocol.Frame.Rounds.{extend, round-extend, Left, round-Left}

Round-cases :
    (r : Round)
    → (r ≡ break)
      ⊎ ((e : FrameError) × (r ≡ fail e))
      ⊎ ((f : Frame) × (rest : Bytes) × (r ≡ took f rest))
Round-cases break = inl refl
Round-cases (fail e) = inr (inl (e, refl))
Round-cases (took f rest) = inr (inr (f, rest, refl))

pub took-shorter :
    (m : ℕ) (buf rest : Bytes) (f : Frame)
    → round m buf ≡ took f rest
    → length rest + 8 ≤ length buf
took-shorter m buf rest f e =
    let l : Left m (length buf) (took f rest) = subst (Left m (length buf)) e (round-Left m buf) in
    l

-- Enough fuel is as good as any other.
pub feed_loop-fuel :
    (n k m : ℕ) (buf : Bytes) (fs : List Frame)
    → length buf < n
    → length buf < k
    → feed_loop n m buf fs ≡ feed_loop k m buf fs
unfolding feed_loop
feed_loop-fuel zero k m buf fs h l = absurd (omega arith)
feed_loop-fuel (suc n) zero m buf fs h l = absurd (omega arith)
feed_loop-fuel (suc n) (suc k) m buf fs h l = elim (Round-cases (round m buf)) [
  | inl e ↦ rw (e, feed_loop) refl
  | inr (inl (x, e)) ↦ rw (e, feed_loop) refl
  | inr (inr (f, rest, e)) ↦
      let s = took-shorter m buf rest f e in
      rw (e, feed_loop) (feed_loop-fuel n k m rest (fs ++ f ∷ []) (omega arith) (omega arith))
]

-- The frames found so far stand before the others.
abbrev pub prepend : List Frame → Result (List Frame) → Result (List Frame)
prepend fs (ok gs) = ok (fs ++ gs)
prepend fs (err e) = err e

feed_loop-frames :
    (n m : ℕ) (buf : Bytes) (fs gs : List Frame)
    → ((feed_loop n m buf (fs ++ gs)).0 ≡ (feed_loop n m buf gs).0)
      × ((feed_loop n m buf (fs ++ gs)).1 ≡ prepend fs (feed_loop n m buf gs).1)
unfolding feed_loop
feed_loop-frames zero m buf fs gs = (refl, refl)
feed_loop-frames (suc n) m buf fs gs = elim (Round-cases (round m buf)) [
  | inl e ↦ rw (e, feed_loop) (refl, refl)
  | inr (inl (x, e)) ↦ rw (e, feed_loop) (refl, refl)
  | inr (inr (f, rest, e)) ↦
      rw (e, feed_loop) (rw append_assoc (feed_loop-frames n m rest fs (gs ++ f ∷ [])))
]

round-fail : (m : ℕ) (a b : Bytes) (x : FrameError) → round m a ≡ fail x → round m (a ++ b) ≡ fail x
round-fail m a b x e = round-extend m a b (λ h. cc) ∙ ap (λ r. extend r b) e

round-took :
    (m : ℕ) (a b rest : Bytes) (f : Frame)
    → round m a ≡ took f rest
    → round m (a ++ b) ≡ took f (rest ++ b)
round-took m a b rest f e = round-extend m a b (λ h. cc) ∙ ap (λ r. extend r b) e

-- The loop on a longer buffer, whose result is `long`, once it has run out on a shorter one.
abbrev Continues : ℕ → Bytes → Bytes × Result (List Frame) → Bytes × Result (List Frame) → Type 0
Continues m b long (rest, ok gs) = long ≡ feed_loop (suc (length (rest ++ b))) m (rest ++ b) gs
Continues m b long (rest, err e) = long.1 ≡ err e

pub feed_loop-took :
    (k m : ℕ) (buf rest : Bytes) (f : Frame) (fs : List Frame)
    → round m buf ≡ took f rest
    → feed_loop (suc k) m buf fs ≡ feed_loop k m rest (fs ++ f ∷ [])
unfolding feed_loop
feed_loop-took k m buf rest f fs e = rw (e, feed_loop) refl

feed_loop-Continues :
    (n k m : ℕ) (a b : Bytes) (fs : List Frame)
    → length a < n
    → length (a ++ b) < k
    → Continues m b (feed_loop k m (a ++ b) fs) (feed_loop n m a fs)
unfolding feed_loop
feed_loop-Continues zero k m a b fs h l = absurd (omega arith)
feed_loop-Continues (suc n) zero m a b fs h l = absurd (omega arith)
feed_loop-Continues (suc n) (suc k) m a b fs h l = elim (Round-cases (round m a)) [
  | inl e ↦
      rw (e, feed_loop)
        (feed_loop-fuel (suc k) (suc (length (a ++ b))) m (a ++ b) fs l (omega arith))
  | inr (inl (x, e)) ↦ rw (e, feed_loop, round-fail m a b x e) refl
  | inr (inr (f, rest, e)) ↦
      let s = took-shorter m a rest f e in
      let long = feed_loop-took k m (a ++ b) (rest ++ b) f fs (round-took m a b rest f e) in
      let short = feed_loop-took n m a rest f fs e in
      let ih =
        feed_loop-Continues n k m rest b (fs ++ f ∷ []) (omega arith)
          (omega (arith, length-append a b, length-append rest b)) in
      subst (λ x. Continues m b x (feed_loop (suc n) m a fs)) (sym long)
        (subst (Continues m b (feed_loop k m (rest ++ b) (fs ++ f ∷ []))) (sym short) ih)
]

-- What a run of the decoder shows: the frames and the decoder to go on with, or the terminal error.
pub data Outcome : Type 0 where
  open_stream : List Frame → FrameDecoder → Outcome
  closed : FrameError → Outcome

abbrev pub outcome : FrameDecoder × Result (List Frame) → Outcome
outcome (d, ok fs) = open_stream fs d
outcome (d, err e) = closed e

abbrev pub after : List Frame → Outcome → Outcome
after fs (open_stream gs d) = open_stream (fs ++ gs) d
after fs (closed e) = closed e

-- A stream that comes in chunks; an error ends it.
abbrev pub and_feed : FrameDecoder × Result (List Frame) → (FrameDecoder → Outcome) → Outcome
and_feed (d, ok fs) k = after fs (k d)
and_feed (d, err e) k = closed e

pub feed_all : FrameDecoder → List Bytes → Outcome
feed_all d [] = open_stream [] d
feed_all d (chunk ∷ chunks) = and_feed (feed d chunk) (λ d'. feed_all d' chunks)

-- The decoder waits for more bytes.
abbrev pub IsSettled : FrameDecoder → Type 0
IsSettled d = round d.max_frame_size d.buf ≡ break

abbrev holding : ℕ → Bytes × Result (List Frame) → FrameDecoder × Result (List Frame)
holding m (buf, r) = (record { buf = buf; max_frame_size = m }, r)

outcome-prepend :
    (m : ℕ) (p q : Bytes × Result (List Frame)) (gs : List Frame)
    → p.0 ≡ q.0
    → p.1 ≡ prepend gs q.1
    → outcome (holding m p) ≡ after gs (outcome (holding m q))
outcome-prepend m (x, r) (y, ok hs) gs e h =
    ap (λ t. outcome (holding m (x, t))) h ∙ ap (λ t. outcome (holding m (t, ok (gs ++ hs)))) e
outcome-prepend m (x, r) (y, err z) gs e h = ap (λ t. outcome (holding m (x, t))) h

Continues-outcome :
    (m : ℕ) (b : Bytes) (long short : Bytes × Result (List Frame))
    → Continues m b long short
    → outcome (holding m long) ≡ and_feed (holding m short) (λ d'. outcome (feed d' b))
unfolding feed
Continues-outcome m b long (rest, ok gs) h =
    let n = suc (length (rest ++ b)) in
    let l = feed_loop-frames n m (rest ++ b) gs [] in
    let k : feed_loop n m (rest ++ b) (gs ++ []) ≡ long =
      ap (feed_loop n m (rest ++ b)) (append-nil gs) ∙ sym h in
    outcome-prepend m long (feed_loop n m (rest ++ b) []) gs (ap (λ p. p.0) (sym k) ∙ l.0)
      (ap (λ p. p.1) (sym k) ∙ l.1)
Continues-outcome m b (x, r) (rest, err e) h = ap (λ t. outcome (holding m (x, t))) h

feed-append :
    (d : FrameDecoder) (a b : Bytes)
    → outcome (feed d (a ++ b)) ≡ and_feed (feed d a) (λ d'. outcome (feed d' b))
unfolding feed
feed-append d a b =
    let m = d.max_frame_size in
    let s = d.buf ++ a in
    let c =
      feed_loop-Continues (suc (length s)) (suc (length (s ++ b))) m s b [] (omega arith)
        (omega arith) in
    ap (λ u. outcome (holding m (feed_loop (suc (length u)) m u []))) (sym (append_assoc d.buf a b))
    ∙ Continues-outcome m b _ _ c

loop-IsSettled :
    (n m : ℕ) (buf rest : Bytes) (fs gs : List Frame)
    → length buf < n
    → feed_loop n m buf fs ≡ (rest, ok gs)
    → round m rest ≡ break
unfolding feed_loop
loop-IsSettled zero m buf rest fs gs h e = absurd (omega arith)
loop-IsSettled (suc n) m buf rest fs gs h e = elim (Round-cases (round m buf)) [
  | inl b ↦
      let stop : feed_loop (suc n) m buf fs ≡ (buf, ok fs) = rw (b, feed_loop) refl in
      subst (λ x. round m x ≡ break) (ap (λ p. p.0) (sym stop ∙ e)) b
  | inr (inl (x, b)) ↦
      let stop : feed_loop (suc n) m buf fs ≡ (buf, err x) = rw (b, feed_loop) refl in
      absurd (ok≢err (ap (λ p. p.1) (sym e ∙ stop)))
  | inr (inr (f, left, b)) ↦
      let s = took-shorter m buf left f b in
      loop-IsSettled n m left rest (fs ++ f ∷ []) gs (omega arith)
        (sym (feed_loop-took n m buf left f fs b) ∙ e)
]
  where
    ok≢err : {x : FrameError} {g : List Frame} → ok g ≢ err x
    ok≢err h = cc

feed-IsSettled :
    (d d' : FrameDecoder) (bytes : Bytes) (fs : List Frame)
    → feed d bytes ≡ (d', ok fs)
    → IsSettled d' × (d'.max_frame_size ≡ d.max_frame_size)
unfolding feed
feed-IsSettled d d' bytes fs e =
    let m = d.max_frame_size in
    let s = d.buf ++ bytes in
    let l = feed_loop (suc (length s)) m s [] in
    let size : m ≡ d'.max_frame_size = ap (λ p. p.0.max_frame_size) e in
    let rest : l.0 ≡ d'.buf = ap (λ p. p.0.buf) e in
    let r =
      loop-IsSettled (suc (length s)) m s l.0 [] fs (omega arith)
        (ap (λ y. (l.0, y)) (ap (λ p. p.1) e)) in
    (subst (λ k. round k d'.buf ≡ break) size (subst (λ x. round m x ≡ break) rest r), sym size)

and_feed-cong :
    (p : FrameDecoder × Result (List Frame)) (k l : FrameDecoder → Outcome)
    → ((d : FrameDecoder) (fs : List Frame) → p ≡ (d, ok fs) → k d ≡ l d)
    → and_feed p k ≡ and_feed p l
and_feed-cong (d, ok fs) k l h = ap (after fs) (h d fs refl)
and_feed-cong (d, err e) k l h = refl

-- With nothing to come, a decoder that waits for more bytes stays as it is.
feed-nil : (d : FrameDecoder) → IsSettled d → outcome (feed d []) ≡ open_stream [] d
unfolding feed
feed-nil d h =
    ap (λ u. outcome (holding d.max_frame_size (feed_loop (suc (length u)) d.max_frame_size u [])))
      (append-nil d.buf)
    ∙ rw (h, feed_loop) refl

-- A decoder that waits for more bytes gives the same frames in the same order, ends with the same
-- buffer, and reports the same error, for a byte stream that comes in chunks as for the whole
-- stream fed at once, wherever the stream is cut.
pub feed_all-flatten :
    (d : FrameDecoder) (chunks : List Bytes)
    → IsSettled d
    → feed_all d chunks ≡ outcome (feed d (flatten chunks))
unfolding feed_all flatten
feed_all-flatten d [] h = sym (feed-nil d h)
feed_all-flatten d (c ∷ cs) h =
    and_feed-cong (feed d c) (λ d'. feed_all d' cs) (λ d'. outcome (feed d' (flatten cs)))
      (λ d' fs e. feed_all-flatten d' cs (feed-IsSettled d d' c fs e).0)
    ∙ sym (feed-append d c (flatten cs))

-- After a call of `feed` that returns frames, the decoder keeps less than a header and a largest
-- frame, whatever came in.
pub feed_buffer_bounded :
    (d d' : FrameDecoder) (bytes : Bytes) (fs : List Frame)
    → feed d bytes ≡ (d', ok fs)
    → length d'.buf < frame_header_len + d.max_frame_size
feed_buffer_bounded d d' bytes fs e =
    let (settled, size) = feed-IsSettled d d' bytes fs e in
    let b : Left d'.max_frame_size (length d'.buf) break =
      subst (Left d'.max_frame_size (length d'.buf)) settled
        (round-Left d'.max_frame_size d'.buf) in
    omega (arith, b, size)

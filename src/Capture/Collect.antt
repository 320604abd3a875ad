-- ===== src/Capture/Collect.antt =====
-- What the callbacks of one response leave in the buffers.
use mathlib.Core.List.{append_assoc, append-nil}
use wrk.Base.{
  ℕ, ◌+◌, ◌≤◌, ◌<◌, ◌^◌, ◌≡◌, refl, ap, sym, ◌∙◌, some, List, [], ◌∷◌, ◌++◌, arith, lt→ltb, length,
  length-append, Option-cases, inl, inr,
}
use wrk.Capture.{
  Buffer, HeaderState, field, value, Capture, header_field, header_value, switch_to, append_as,
  put_nul,
}
use wrk.Capture.Grow.{append-HasRoom, HasRoom}
use wrk.Capture.Parse.{encode, length-encode}
use wrk.Capture.Events.{
  Event, on_field, on_value, callback, callbacks, Pieces, join, whole, each, events,
}

-- What the header buffer stands for once its last text is ended.
abbrev pub ended : HeaderState → List ℕ → List ℕ
ended field bytes = bytes
ended value bytes = bytes ++ 0 ∷ []

-- The state between two headers of a response.
pub record Between (c : Capture) (bytes : List ℕ) : Type 0 where
  pub content : ended c.state c.headers.written ≡ bytes
  pub room : c.state ≡ value → HasRoom c.headers
  pub small : c.headers.length < 2 ^ 63

-- The state within a text.
record Within (to : HeaderState) (c : Capture) (bytes : List ℕ) : Type 0 where
  state : c.state ≡ to
  content : c.headers.written ≡ bytes
  room : HasRoom c.headers
  small : c.headers.length < 2 ^ 63

-- What the next piece of a text does to the capture.
abbrev Appends : HeaderState → Capture → List ℕ → List ℕ → Type 0
Appends to c more bytes =
    (c' : Capture) × (append_as to c more ≡ some c') × Within to c' bytes × (c'.body ≡ c.body)

append_switched :
    (to : HeaderState) (c : Capture) (b : Buffer) (bytes more : List ℕ)
    → switch_to c.state to c.headers ≡ some b
    → b.written ≡ bytes
    → b.length < 2 ^ 63
    → length bytes + length more ≤ 2 ^ 62
    → Appends to c more (bytes ++ more)
unfolding append_as
append_switched to c b bytes more e content small short =
    let measure : length b.written ≡ length bytes = ap length content in
    let (b', e', w, room, small') = append-HasRoom b more (omega arith) small in
    (
      record c { state = to; headers = b' },
      rw (e, e', append_as),
      record {
        state = refl;
        content = w ∙ ap (λ t. t ++ more) content;
        room = room;
        small = small';
      },
      refl,
    )

same_state : (to : HeaderState) (b : Buffer) → switch_to to to b ≡ some b
unfolding switch_to
same_state field b = refl
same_state value b = refl

append_Within :
    (to : HeaderState) (c : Capture) (bytes more : List ℕ)
    → Within to c bytes
    → length bytes + length more ≤ 2 ^ 62
    → Appends to c more (bytes ++ more)
append_Within to c bytes more w short =
    append_switched to c c.headers bytes more (rw w.state (same_state to c.headers)) w.content
      w.small short

-- The buffer with the NUL behind a text.
abbrev pub with_nul : Buffer → Buffer
with_nul b = record b { written = b.written ++ 0 ∷ [] }

pub put_nul_lem : (b : Buffer) → HasRoom b → put_nul b ≡ some (with_nul b)
unfolding put_nul
put_nul_lem b room = rw (lt→ltb _ _ room)

-- The first piece of a name.
start_name :
    (c : Capture) (bytes more : List ℕ)
    → Between c bytes
    → length bytes + length more ≤ 2 ^ 62
    → Appends field c more (bytes ++ more)
start_name c bytes more w short = by_state c.state refl
  where
    by_state : (s : HeaderState) → c.state ≡ s → Appends field c more (bytes ++ more)
    by_state field e =
        append_switched field c c.headers bytes more (rw e (same_state field c.headers))
          (ground arith) w.small short
    by_state value e =
        append_switched field c (with_nul c.headers) bytes more
          (rw e (unfold switch_to in put_nul_lem c.headers (w.room e))) (ground arith) w.small short

-- The first piece of a value.
start_value :
    (c : Capture) (bytes more : List ℕ)
    → Within field c bytes
    → length bytes + length more + 1 ≤ 2 ^ 62
    → Appends value c more ((bytes ++ 0 ∷ []) ++ more)
start_value c bytes more w short =
    append_switched value c (with_nul c.headers) (bytes ++ 0 ∷ []) more
      (rw w.state (unfold switch_to in put_nul_lem c.headers w.room))
      (ap (λ t. t ++ 0 ∷ []) w.content) w.small (omega (arith, length-append bytes (0 ∷ [])))

pub callbacks_step :
    (c : Capture) (e : Event) (es : List Event) {c' : Capture}
    → callback c e ≡ some c'
    → callbacks c (e ∷ es) ≡ callbacks c' es
unfolding callbacks
callbacks_step c e es p = rw (p, callbacks)

pub callbacks-append :
    (c : Capture) (es fs : List Event) {c' : Capture}
    → callbacks c es ≡ some c'
    → callbacks c (es ++ fs) ≡ callbacks c' fs
unfolding callbacks
callbacks-append c [] fs p = cc
callbacks-append c (e ∷ es) fs p = elim (Option-cases (callback c e)) [
  | inl stuck ↦ absurd (cc)
  | inr (c'', step) ↦
      callbacks_step c e (es ++ fs) step
      ∙ callbacks-append c'' es fs (sym (callbacks_step c e es step) ∙ p)
]

-- The rest of the pieces.
more_pieces :
    (f : List ℕ → Event) (to : HeaderState) (c : Capture) (bytes : List ℕ) (xs : List (List ℕ))
    → ((c : Capture) (x : List ℕ) → callback c (f x) ≡ append_as to c x)
    → Within to c bytes
    → length bytes + length (join xs) ≤ 2 ^ 62
    → (c' : Capture) × (callbacks c (each f xs) ≡ some c')
      × Within to c' (bytes ++ join xs)
      × (c'.body ≡ c.body)
unfolding callbacks
more_pieces f to c bytes [] by w short = (c, refl, rw append-nil w, refl)
more_pieces f to c bytes (x ∷ xs) by w short =
    let measure = length-append x (join xs) in
    let measure' = length-append bytes x in
    let (c', e, w', same) = append_Within to c bytes x w (omega arith) in
    let (c'', e', w'', same') = more_pieces f to c' (bytes ++ x) xs by w' (omega arith) in
    (
      c'',
      callbacks_step c (f x) (each f xs) (by c x ∙ e) ∙ e',
      rw append_assoc at w'',
      same' ∙ same,
    )

-- One header, in whatever pieces it comes.
pub header_Between :
    (c : Capture) (bytes : List ℕ) (p : Pieces)
    → Between c bytes
    → length bytes + length (encode (whole p ∷ [])) ≤ 2 ^ 62
    → (c' : Capture) × (callbacks c (events p) ≡ some c')
      × Between c' (bytes ++ encode (whole p ∷ []))
      × (c'.state ≡ value)
      × (c'.body ≡ c.body)
unfolding callback header_field header_value
header_Between c bytes p b short =
    let measure : length bytes
          + length p.name
          + length (join p.more_name)
          + length p.text
          + length (join p.more_text)
          + 2
        ≤ 2 ^ 62 =
      omega (
        arith,
        length-encode (p.name ++ join p.more_name) (p.text ++ join p.more_text) [],
        length-append p.name (join p.more_name),
        length-append p.text (join p.more_text),
      ) in
    let first = bytes ++ p.name in
    let name = first ++ join p.more_name in
    let ended_name = name ++ 0 ∷ [] in
    let first_text = ended_name ++ p.text in
    let l1 = length-append bytes p.name in
    let l2 = length-append first (join p.more_name) in
    let l3 = length-append name (0 ∷ []) in
    let l4 = length-append ended_name p.text in
    let (c1, e1, w1, s1) = start_name c bytes p.name b (omega arith) in
    let (c2, e2, w2, s2) =
      more_pieces on_field field c1 first p.more_name (λ c x. refl) w1 (omega arith) in
    let (c3, e3, w3, s3) = start_value c2 name p.text w2 (omega arith) in
    let (c4, e4, w4, s4) =
      more_pieces on_value value c3 first_text p.more_text (λ c x. refl) w3 (omega arith) in
    let values = each on_value p.more_text in
    (
      c4,
      callbacks_step c (on_field p.name) (each on_field p.more_name ++ on_value p.text ∷ values) e1
          ∙ callbacks-append c1 (each on_field p.more_name) (on_value p.text ∷ values) e2
          ∙ callbacks_step c2 (on_value p.text) values e3
          ∙ e4,
      record {
        content = rw (w4.state, w4.content) (simp append_assoc);
        room = λ _. w4.room;
        small = w4.small;
      },
      w4.state,
      s4 ∙ s3 ∙ s2 ∙ s1,
    )

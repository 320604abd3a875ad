-- ===== src/Capture/Events.antt =====
-- The callbacks of one response, as events, and the headers that they hand over in pieces.
use wrk.Base.{ℕ, Option, none, some, List, [], ◌∷◌, ◌++◌}
use wrk.Capture.{Capture, header_field, header_value, response_body}
use wrk.Capture.Parse.{Header}

-- The callbacks that the HTTP parser makes; a text comes in one piece or several.
pub data Event : Type 0 where
  on_field : List ℕ → Event
  on_value : List ℕ → Event
  on_body : List ℕ → Event

unfoldable pub callback : Capture → Event → Option Capture
callback c (on_field bytes) = header_field c bytes
callback c (on_value bytes) = header_value c bytes
callback c (on_body bytes) = response_body c bytes

unfoldable pub callbacks : Capture → List Event → Option Capture
callbacks c [] = some c
callbacks c (e ∷ es) = elim (callback c e) [ none ↦ none | some c' ↦ callbacks c' es ]

-- A header in the pieces that the parser hands over: at least one for each text.
pub record Pieces : Type 0 where
  pub name : List ℕ
  pub more_name : List (List ℕ)
  pub text : List ℕ
  pub more_text : List (List ℕ)

abbrev pub join : List (List ℕ) → List ℕ
join [] = []
join (x ∷ xs) = x ++ join xs

abbrev pub whole : Pieces → Header
whole p = (p.name ++ join p.more_name, p.text ++ join p.more_text)

abbrev pub each : (List ℕ → Event) → List (List ℕ) → List Event
each f [] = []
each f (x ∷ xs) = f x ∷ each f xs

abbrev pub events : Pieces → List Event
events p =
    on_field p.name ∷ (each on_field p.more_name ++ on_value p.text ∷ each on_value p.more_text)

abbrev pub all_events : List Pieces → List Event
all_events [] = []
all_events (p ∷ ps) = events p ++ all_events ps

abbrev pub wholes : List Pieces → List Header
wholes [] = []
wholes (p ∷ ps) = whole p ∷ wholes ps

-- ===== src/Detection/Timeline.antt =====
-- `sorted(events, key=lambda item: _parse_time(item["event_time"]))` of src/detection_engine.py, and
-- the sort of `analyze_events` by time and id. Python compares an aware and a naive time by raising a
-- `TypeError`; a sort of two or more elements of both kinds always makes such a comparison.
use team_c_edr.Base.{
  ℕ, Bool, true, false, not, ◌&&◌, ◌||◌, List, [], ◌∷◌, ltb, ◌==◌, all, map, sort_by, str_lt,
  if◌then◌else◌,
}
use team_c_edr.Base.Int.{ℤ, pos, negsuc}
use team_c_edr.Json.{Fields, get}
use team_c_edr.Python.{
  Runtime, Result, ok, err, ◌>>=◌, type_error, DateTime, Key, text_key, int_key, float_key,
  hash_key,
}
use team_c_edr.Detection.Rules.{parse_time}

abbrev pub Timed : Type 0
Timed = DateTime × Fields

abbrev pub time_of : Timed → ℕ
time_of e = e.0.instant

unfoldable pub read_times : Runtime → List Fields → Result (List Timed)
read_times rt [] = ok []
read_times rt (event ∷ events) = do
  t ← parse_time rt (get "event_time" event)
  rest ← read_times rt events
  ok ((t, event) ∷ rest)

abbrev pub comparable : List Timed → Bool
comparable ts = all (λ e. e.0.aware) ts || all (λ e. not e.0.aware) ts

abbrev pub earlier : Timed → Timed → Bool
earlier e f = ltb (time_of e) (time_of f)

unfoldable pub sort_by_time : Runtime → List Fields → Result (List Timed)
unfolding read_times
sort_by_time rt events = do
  ts ← read_times rt events
  if comparable ts then ok (sort_by earlier ts) else err type_error

-- `x < y` for two integers.
unfoldable pub int_less : ℤ → ℤ → Bool
int_less (pos n) (pos m) = ltb n m
int_less (pos n) (negsuc m) = false
int_less (negsuc n) (pos m) = true
int_less (negsuc n) (negsuc m) = ltb m n

-- Values of one kind can be ordered: texts, or numbers.
unfoldable pub ordered : Key → Key → Bool
ordered (text_key s) (text_key t) = true
ordered (int_key z) (int_key w) = true
ordered (int_key z) (float_key r) = true
ordered (float_key r) (int_key z) = true
ordered (float_key r) (float_key q) = true
ordered k j = false

unfoldable pub key_less : Runtime → Key → Key → Bool
unfolding int_less
key_less rt (text_key s) (text_key t) = str_lt s t
key_less rt (int_key z) (int_key w) = int_less z w
key_less rt (int_key z) (float_key r) = rt.float_less (rt.show_int z) r
key_less rt (float_key r) (int_key z) = rt.float_less r (rt.show_int z)
key_less rt (float_key r) (float_key q) = rt.float_less r q
key_less rt k j = false

-- `sorted` of keys that differ. Texts and numbers do not mix, and any sort of both would compare two.
unfoldable pub all_ordered : List Key → Bool
all_ordered [] = true
all_ordered (k ∷ ks) = all (ordered k) ks && all_ordered ks

unfoldable pub sort_keys : Runtime → List Key → Result (List Key)
unfolding key_less all_ordered
sort_keys rt ks = if all_ordered ks then ok (sort_by (key_less rt) ks) else err type_error

-- An event with its time and the key of its id.
abbrev pub Entry : Type 0
Entry = Timed × Key

unfoldable pub read_entries : Runtime → List Timed → Result (List Entry)
read_entries rt [] = ok []
read_entries rt (e ∷ es) = do
  k ← hash_key (get "event_id" e.1)
  rest ← read_entries rt es
  ok ((e, k) ∷ rest)

-- Ids are compared where the times are equal.
unfoldable pub same_time_ordered : List Entry → Bool
same_time_ordered [] = true
same_time_ordered (x ∷ xs) =
    all (λ (y : Entry). not (time_of x.0 == time_of y.0) || ordered x.1 y.1) xs
    && same_time_ordered xs

unfoldable pub before : Runtime → Entry → Entry → Bool
unfolding key_less
before rt x y =
    if time_of x.0 == time_of y.0 then key_less rt x.1 y.1 else ltb (time_of x.0) (time_of y.0)

-- `sorted(valid_events, key=lambda item: (_parse_time(item["event_time"]), item["event_id"]))`
unfoldable pub sort_valid : Runtime → List Fields → Result (List Fields)
unfolding read_times read_entries before same_time_ordered
sort_valid rt events = do
  ts ← read_times rt events
  es ← read_entries rt ts
  if comparable ts && same_time_ordered es
      then ok (map (λ (x : Entry). x.0.1) (sort_by (before rt) es))
      else err type_error

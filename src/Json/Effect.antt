-- ===== src/Json/Effect.antt =====
-- What the JSON packets of src/statsd.c do.
use statsd_c.Base.{
  ◌≤◌, ◌≡◌, ◌∙◌, refl, true, Option, none, some, List, [], ◌∷◌, Bytes, arith, length, codes,
}
use statsd_c.Exec.{Exec, ok}
use statsd_c.Strings.{sanitize_key}
use statsd_c.Strings.Decimal.{ℤ}
use statsd_c.Platform.{Platform, json_object, json_array, parsed}
use statsd_c.Platform.Laws.{HashLaws, ArrayLaws}
use statsd_c.Store.{State, fits_key}
use statsd_c.Store.Update.{increment}
use statsd_c.Store.View.{Metrics, IsValid, Does, Does-then, count, time}
use statsd_c.Store.Refine.{update_counter-Does}
use statsd_c.Store.Timers.{update_timer-Does}
use statsd_c.Json.{json_rate, process_json_stats_object, json_elements, process_json_stats_packet}

module _ (P : Platform) where
  open P use {Json, json_get_type, json_object_get, json_get_string, json_get_double}

  abbrev member : Json → Bytes → Option Json
  member = json_object_get

  abbrev name_of : Json → Bytes
  name_of j = sanitize_key (json_get_string j)

  -- What an object asks for, by its members.
  pub data Asks (j : Json) (g : Metrics P → Metrics P) : Type 0 where
    timer :
        (t v : Json)
        → member j (codes "timer") ≡ some t
        → member j (codes "counter") ≡ none
        → member j (codes "value") ≡ some v
        → fits_key (name_of t) ≡ true
        → g ≡ time P (name_of t) (json_get_double v)
        → Asks j g
    counter :
        (c v : Json)
        → member j (codes "timer") ≡ none
        → member j (codes "counter") ≡ some c
        → member j (codes "value") ≡ some v
        → fits_key (name_of c) ≡ true
        → g
          ≡ count P (name_of c) (
              P.widen
                (increment P (json_get_double v) (json_rate P (member j (codes "sample_rate")))))
        → Asks j g
    both :
        (t c : Json)
        → member j (codes "timer") ≡ some t
        → member j (codes "counter") ≡ some c
        → g ≡ (λ m. m)
        → Asks j g
    neither :
        member j (codes "timer") ≡ none
        → member j (codes "counter") ≡ none
        → g ≡ (λ m. m)
        → Asks j g
    timer_alone :
        (t : Json)
        → member j (codes "timer") ≡ some t
        → member j (codes "counter") ≡ none
        → member j (codes "value") ≡ none
        → g ≡ (λ m. m)
        → Asks j g
    counter_alone :
        (c : Json)
        → member j (codes "timer") ≡ none
        → member j (codes "counter") ≡ some c
        → member j (codes "value") ≡ none
        → g ≡ (λ m. m)
        → Asks j g

  -- The elements are objects that ask for these changes, in this order.
  pub data AllAsk : List (Option Json) → (Metrics P → Metrics P) → Type 0 where
    done : AllAsk [] (λ m. m)
    more :
        {js : List (Option Json)} {h : Metrics P → Metrics P} (j : Json) (g : Metrics P → Metrics P)
        → json_get_type j ≡ json_object
        → Asks j g
        → AllAsk js h
        → AllAsk (some j ∷ js) (λ m. h (g m))

module _ {P : Platform} (H : HashLaws P) (A : ArrayLaws P) where
  idle :
      (s : State P) {m : Exec (State P) (Unit {0})} {g : Metrics P → Metrics P}
      → m s ≡ ok (tt, s)
      → g ≡ (λ x. x)
      → IsValid P s
      → Does P m s g
  idle s e h v = record { after = s; returns = e; viewed = rw h; locks_kept = refl; valid = v }

  along :
      {m k : Exec (State P) (Unit {0})} {s : State P} {g h : Metrics P → Metrics P}
      → Does P m s g
      → k s ≡ m s
      → h ≡ g
      → Does P k s h
  along d e f = record {
    after = d.after;
    returns = e ∙ d.returns;
    viewed = rw f d.viewed;
    locks_kept = d.locks_kept;
    valid = d.valid;
  }

  process_json_stats_object-Does :
      (j : P.Json) (g : Metrics P → Metrics P) (s : State P)
      → P.json_get_type j ≡ json_object
      → Asks P j g
      → IsValid P s
      → Does P (process_json_stats_object P (some j)) s g
  unfolding process_json_stats_object
  process_json_stats_object-Does j g s o (timer t v a b c fits e) w =
      along
        (update_timer-Does H A (sanitize_key (P.json_get_string t)) (P.json_get_double v) s fits w)
        (ground (arith, o, a, b, c)) e
  process_json_stats_object-Does j g s o (counter t v a b c fits e) w =
      along
        (update_counter-Does H (sanitize_key (P.json_get_string t)) (P.json_get_double v)
          (json_rate P (P.json_object_get j (codes "sample_rate"))) s fits w)
        (ground (arith, o, a, b, c)) e
  process_json_stats_object-Does j g s o (both t c a b e) w = idle s (ground (arith, o, a, b)) e w
  process_json_stats_object-Does j g s o (neither a b e) w = idle s (ground (arith, o, a, b)) e w
  process_json_stats_object-Does j g s o (timer_alone t a b c e) w =
      idle s (ground (arith, o, a, b, c)) e w
  process_json_stats_object-Does j g s o (counter_alone t a b c e) w =
      idle s (ground (arith, o, a, b, c)) e w

  json_elements-Does :
      (js : List (Option P.Json)) {g : Metrics P → Metrics P} (s : State P)
      → AllAsk P js g
      → IsValid P s
      → Does P (json_elements P js) s g
  unfolding json_elements
  json_elements-Does [] s done w = idle s refl refl w
  json_elements-Does (_ ∷ js) s (more j g o a rest) w =
      let d = process_json_stats_object-Does j g s o a w in
      Does-then P d (json_elements-Does js d.after rest d.valid)

  -- A packet with an array of objects carries out what each object asks for, in their order: a
  -- timer or a counter with a value is updated under its sanitised name, an object with both
  -- names, with neither or without a value is passed over. Nothing else changes, so
  -- `messages.last_msg_seen` neither.
  pub process_json_stats_packet-array :
      (now : ℤ) (buf : Bytes) (j : P.Json) (g : Metrics P → Metrics P) (s : State P)
      → 2 ≤ length buf
      → P.json_tokener_parse buf ≡ parsed j
      → P.json_get_type j ≡ json_array
      → AllAsk P (P.json_array_items j) g
      → IsValid P s
      → Does P (process_json_stats_packet P now buf) s g
  unfolding process_json_stats_packet
  process_json_stats_packet-array now buf j g s l p t a w =
      along (json_elements-Does (P.json_array_items j) s a w) (ground (arith, l, p, t)) refl

  -- A packet with one object carries out what the object asks for.
  pub process_json_stats_packet-object :
      (now : ℤ) (buf : Bytes) (j : P.Json) (g : Metrics P → Metrics P) (s : State P)
      → 2 ≤ length buf
      → P.json_tokener_parse buf ≡ parsed j
      → P.json_get_type j ≡ json_object
      → Asks P j g
      → IsValid P s
      → Does P (process_json_stats_packet P now buf) s g
  unfolding process_json_stats_packet
  process_json_stats_packet-object now buf j g s l p t a w =
      along (process_json_stats_object-Does j g s t a w) (ground (arith, l, p, t)) refl

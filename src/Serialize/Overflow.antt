-- ===== src/Serialize/Overflow.antt =====
-- What src/serialize.c does with the names of stats.
use statsd_c.Base.{
  ◌+◌, ◌-◌, ◌<◌, ◌≡◌, ◌∙◌, refl, Bool, ◌∷◌, ◌++◌, Bytes, codes, arith, length, length-append,
}
use statsd_c.Base.Assoc.{Assoc}
use statsd_c.Exec.{ok, fault, overflow, lift, bind-fault, bind-ok}
use statsd_c.Strings.{print_into}
use statsd_c.Platform.{Platform}
use statsd_c.Store.{State, Stat, wait_for_stats_lock}
use statsd_c.Serialize.{serialize_stats, stats_items, stats_object, statsd_serialize}

-- A name of seven bytes and more with its period does not fit.
print_into-fault :
    (group key : Bytes)
    → 6 < length group + length key
    → print_into 8 (group ++ (codes "." ++ key)) ≡ fault overflow
print_into-fault group key h = ground (arith, length-append group (codes "." ++ key))

module _ (P : Platform) where
  serialize_stats-fault :
      (name : Bytes) (st : Stat) (rest : Assoc Stat) (obj : P.Json)
      → 6 < length st.group_name + length st.key_name
      → serialize_stats P ((name, st) ∷ rest) obj ≡ fault overflow
  unfolding serialize_stats
  serialize_stats-fault name st rest obj h = rw (print_into-fault st.group_name st.key_name h) refl

  stats_items-fault :
      (name : Bytes) (st : Stat) (rest : Assoc Stat) (s : State P)
      → 6 < length st.group_name + length st.key_name
      → stats_items P ((name, st) ∷ rest) s ≡ fault overflow
  unfolding stats_items
  stats_items-fault name st rest s h =
      bind-fault (lift (serialize_stats P ((name, st) ∷ rest) P.json_new_object)) _
        (rw (serialize_stats-fault name st rest P.json_new_object h, lift) refl)

  -- The state in which the lock is held.
  abbrev pub held : State P → State P
  held s = record s { locks = record s.locks { stats_lock = s.locks.stats_lock - 1 } }

  pub wait-returns :
      (s : State P) → 0 < s.locks.stats_lock → wait_for_stats_lock P s ≡ ok (tt, held s)
  wait-returns s free = ground arith

  stats_object-fault :
      (name : Bytes) (st : Stat) (rest : Assoc Stat) (s : State P)
      → P.hash_items Stat s.stats ≡ (name, st) ∷ rest
      → 6 < length st.group_name + length st.key_name
      → 0 < s.locks.stats_lock
      → stats_object P s ≡ fault overflow
  unfolding stats_object
  stats_object-fault name st rest s e h free =
      bind-ok (wait_for_stats_lock P) _ (wait-returns s free)
      ∙ rw e (stats_items-fault name st rest (held s) h)

  -- `statsd_serialize` writes past the buffer for the name of the first stat, if its group and its
  -- key have more than six bytes together.
  pub statsd_serialize-fault :
      (opened : Bool) (name : Bytes) (st : Stat) (rest : Assoc Stat) (s : State P)
      → P.hash_items Stat s.stats ≡ (name, st) ∷ rest
      → 6 < length st.group_name + length st.key_name
      → 0 < s.locks.stats_lock
      → statsd_serialize P opened s ≡ fault overflow
  unfolding statsd_serialize
  statsd_serialize-fault opened name st rest s e h free =
      bind-fault (stats_object P) _ (stats_object-fault name st rest s e h free)

-- ===== src/Flush/Parts.antt =====
-- What a round of `p_thread_flush` of src/statsd.c says about the entries of the tables, without the
-- order of its calls: a text for graphite, messages for ganglia, and a number of stats.
use mathlib.Core.List.{append-nil, append_assoc}
use statsd_c.Base.{
  ℕ, ◌+◌, ◌<◌, ◌≡◌, ◌∙◌, refl, sym, ap, Bool, true, false, ◌⊎◌, inl, inr, List, [], ◌∷◌, ◌++◌,
  Bytes, All, arith, length, if◌then◌else◌,
}
use statsd_c.Flush.Output.{Round, Out, Message, gmetric_on, one_more}

pub record Part : Type 0 where
  pub text : Bytes
  pub messages : List Message
  pub stats : ℕ

abbrev pub silent : Part
silent = record { text = []; messages = []; stats = 0 }

-- One part behind the other.
abbrev pub join : Part → Part → Part
join p q = record {
  text = p.text ++ q.text;
  messages = p.messages ++ q.messages;
  stats = p.stats + q.stats;
}

abbrev pub parts : {E : Type 0} → (E → Part) → List E → Part
parts f [] = silent
parts f (e ∷ es) = join (f e) (parts f es)

-- The part counts as one stat.
abbrev pub counted : Part → Part
counted p = record p { stats = 1 }

-- The output with a part added: the text if graphite is on, the messages if ganglia is.
abbrev pub emit : Round → Part → Out → Out
emit r p o = record o {
  stat_string = if r.enable_graphite then o.stat_string ++ p.text else o.stat_string;
  messages = if gmetric_on r then o.messages ++ p.messages else o.messages;
  num_stats = o.num_stats + p.stats;
}

if-append-append :
    {A : Type 0} (b : Bool) (xs ys zs : List A)
    → (if b then (if b then xs ++ ys else xs) ++ zs else (if b then xs ++ ys else xs))
      ≡ (if b then xs ++ (ys ++ zs) else xs)
if-append-append true xs ys zs = append_assoc xs ys zs
if-append-append false xs ys zs = refl

if-append-nil : {A : Type 0} (b : Bool) (xs : List A) → (if b then xs ++ [] else xs) ≡ xs
if-append-nil true xs = append-nil xs
if-append-nil false xs = refl

add_assoc : (a b c : ℕ) → a + b + c ≡ a + (b + c)
add_assoc a b c = omega arith

add_zero : (a : ℕ) → a + 0 ≡ a
add_zero a = omega arith

one_behind : (a : ℕ) → a + 0 + 1 ≡ a + 1
one_behind a = omega arith

pub emit-join : (r : Round) (p q : Part) (o : Out) → emit r q (emit r p o) ≡ emit r (join p q) o
emit-join r p q o i = record {
  stat_string = if-append-append r.enable_graphite o.stat_string p.text q.text i;
  messages = if-append-append (gmetric_on r) o.messages p.messages q.messages i;
  num_stats = add_assoc o.num_stats p.stats q.stats i;
  sent = o.sent;
}

pub emit-silent : (r : Round) (o : Out) → emit r silent o ≡ o
emit-silent r o i = record {
  stat_string = if-append-nil r.enable_graphite o.stat_string i;
  messages = if-append-nil (gmetric_on r) o.messages i;
  num_stats = add_zero o.num_stats i;
  sent = o.sent;
}

-- Ganglia is off, or the values fit the 30 bytes of its messages.
abbrev pub Fits : Round → Part → Type 0
Fits r p = (gmetric_on r ≡ false) ⊎ All (λ m. length m.value < 30) p.messages

All-left : {E : Type 0} (Q : E → Type 0) (xs ys : List E) → All Q (xs ++ ys) → All Q xs
All-left Q [] ys h = tt
All-left Q (x ∷ xs) ys h = (h.0, All-left Q xs ys h.1)

All-right : {E : Type 0} (Q : E → Type 0) (xs ys : List E) → All Q (xs ++ ys) → All Q ys
All-right Q [] ys h = h
All-right Q (x ∷ xs) ys h = All-right Q xs ys h.1

pub Fits-left : (r : Round) (p q : Part) → Fits r (join p q) → Fits r p
Fits-left r p q (inl off) = inl off
Fits-left r p q (inr h) = inr (All-left (λ m. length m.value < 30) p.messages q.messages h)

pub Fits-right : (r : Round) (p q : Part) → Fits r (join p q) → Fits r q
Fits-right r p q (inl off) = inl off
Fits-right r p q (inr h) = inr (All-right (λ m. length m.value < 30) p.messages q.messages h)

-- The messages one after the other.
abbrev pub say : List Message → Out → Out
say [] o = o
say (m ∷ ms) o = say ms (record o { messages = o.messages ++ m ∷ [] })

say-eq : (ms : List Message) (o : Out) → say ms o ≡ record o { messages = o.messages ++ ms }
say-eq [] o = ap (λ l. record o { messages = l }) (sym (append-nil o.messages))
say-eq (m ∷ ms) o =
    say-eq ms (record o { messages = o.messages ++ m ∷ [] })
    ∙ ap (λ l. record o { messages = l }) (append_assoc o.messages (m ∷ []) ms)

-- The output with the text of a part.
abbrev pub printed : Round → Part → Out → Out
printed r p o = record o {
  stat_string = if r.enable_graphite then o.stat_string ++ p.text else o.stat_string;
}

pub emit-off :
    (r : Round) (p : Part) (o : Out)
    → gmetric_on r ≡ false
    → p.stats ≡ 0
    → printed r p o ≡ emit r p o
emit-off r p o off none i = record {
  stat_string = if r.enable_graphite then o.stat_string ++ p.text else o.stat_string;
  messages = ap (λ b. if b then o.messages ++ p.messages else o.messages) (sym off) i;
  num_stats = (sym (add_zero o.num_stats) ∙ ap (λ n. o.num_stats + n) (sym none)) i;
  sent = o.sent;
}

pub emit-on :
    (r : Round) (p : Part) (o : Out)
    → gmetric_on r ≡ true
    → p.stats ≡ 0
    → say p.messages (printed r p o) ≡ emit r p o
emit-on r p o on none = say-eq p.messages (printed r p o) ∙ λ i. record {
  stat_string = if r.enable_graphite then o.stat_string ++ p.text else o.stat_string;
  messages = ap (λ b. if b then o.messages ++ p.messages else o.messages) (sym on) i;
  num_stats = (sym (add_zero o.num_stats) ∙ ap (λ n. o.num_stats + n) (sym none)) i;
  sent = o.sent;
}

-- A part that counts.
pub emit-counted :
    (r : Round) (p : Part) (o : Out) → p.stats ≡ 0 → one_more (emit r p o) ≡ emit r (counted p) o
emit-counted r p o none i = record {
  stat_string = if r.enable_graphite then o.stat_string ++ p.text else o.stat_string;
  messages = if gmetric_on r then o.messages ++ p.messages else o.messages;
  num_stats = (ap (λ n. o.num_stats + n + 1) none ∙ one_behind o.num_stats) i;
  sent = o.sent;
}

-- ===== src/Tests/Nodes.antt =====
-- The documents of the sample platform, and a notation in which they are printed and read.
use statsd_c.Base.{
  ℕ, ◌+◌, ◌-◌, Option, none, some, List, [], ◌∷◌, ◌++◌, Bytes, ◌==◌, codes, bytes_eq, if◌then◌else◌,
}
use statsd_c.Base.Assoc.{Assoc, lookup}
use statsd_c.Strings.Decimal.{ℤ, pos, negsuc}
use statsd_c.Platform.{JsonType, json_object, json_array, json_other, Parsed, error_ptr, parsed}
use statsd_c.Platform.Laws.{present}

-- A document, with objects and arrays as they are built.
pub data Node : Type 0 where
  text : Bytes → Node
  number : ℕ → Node
  integer : ℤ → Node
  new_object new_array : Node
  with_member : Node → Bytes → Node → Node
  with_element : Node → Node → Node

abbrev pub node_type : Node → JsonType
node_type new_object = json_object
node_type (with_member o k v) = json_object
node_type new_array = json_array
node_type (with_element a v) = json_array
node_type _ = json_other

abbrev pub node_members : Node → Assoc (Option Node)
node_members (with_member o k v) = node_members o ++ (k, some v) ∷ []
node_members _ = []

abbrev pub node_get : Node → Bytes → Option Node
node_get o k = present (lookup k (node_members o))

abbrev pub node_items : Node → List (Option Node)
node_items (with_element a v) = node_items a ++ some v ∷ []
node_items _ = []

abbrev pub node_string : Node → Bytes
node_string (text t) = t
node_string _ = []

abbrev pub node_double : Node → ℕ
node_double (number n) = n
node_double _ = 0

abbrev pub node_int : Node → ℤ
node_int (integer i) = i
node_int _ = pos 0

-- The one document that the parser knows.
abbrev pub document : Bytes
document = codes "[t]"

abbrev pub node_of_document : Node
node_of_document =
    with_element
      (with_element new_array (
        with_member (with_member new_object (codes "timer") (text (codes "a.b"))) (codes "value")
          (number 7)))
      (with_member (with_member new_object (codes "counter") (text (codes "c"))) (codes "value")
        (number 3))

-- A node behind its parts: the steps that build it, a letter each. A name ends at a quote, and a
-- number is the next byte less one.
abbrev pub printed : Node → Bytes
printed (text t) = b't' ∷ (t ++ b'"' ∷ [])
printed (number n) = b'n' ∷ ((n + 1) ∷ [])
printed (integer (pos n)) = b'p' ∷ ((n + 1) ∷ [])
printed (integer (negsuc n)) = b'q' ∷ ((n + 1) ∷ [])
printed new_object = b'o' ∷ []
printed new_array = b'a' ∷ []
printed (with_member o k v) = printed o ++ (printed v ++ (b'm' ∷ (k ++ b'"' ∷ [])))
printed (with_element a v) = printed a ++ (printed v ++ b'e' ∷ [])

-- What the reader is inside of.
pub data Reading : Type 0 where
  between counting plus minus : Reading
  quoted named : Bytes → Reading

-- The steps, on a stack of nodes.
abbrev pub step_letter : ℕ → List Node → Option (Reading × List Node)
step_letter c stack =
    if c == b'o'
    then some (between, new_object ∷ stack)
    else if c == b'a'
    then some (between, new_array ∷ stack)
    else if c == b'n'
    then some (counting, stack)
    else if c == b'p'
    then some (plus, stack)
    else if c == b'q'
    then some (minus, stack)
    else if c == b't'
    then some (quoted [], stack)
    else if c == b'm'
    then some (named [], stack)
    else if c == b'e'
    then elim stack [ v ∷ a ∷ rest ↦ some (between, with_element a v ∷ rest) | _ ↦ none ]
    else none

abbrev pub named_member : Bytes → List Node → Option (Reading × List Node)
named_member k (v ∷ o ∷ rest) = some (between, with_member o k v ∷ rest)
named_member k _ = none

abbrev pub step_byte : Reading → ℕ → List Node → Option (Reading × List Node)
step_byte between c stack = step_letter c stack
step_byte counting c stack = some (between, number (c - 1) ∷ stack)
step_byte plus c stack = some (between, integer (pos (c - 1)) ∷ stack)
step_byte minus c stack = some (between, integer (negsuc (c - 1)) ∷ stack)
step_byte (quoted t) c stack =
    if c == b'"' then some (between, text t ∷ stack) else some (quoted (t ++ c ∷ []), stack)
step_byte (named k) c stack =
    if c == b'"' then named_member k stack else some (named (k ++ c ∷ []), stack)

abbrev pub read_steps : Bytes → Reading × List Node → Option Node
read_steps [] (between, n ∷ []) = some n
read_steps [] _ = none
read_steps (c ∷ cs) (r, stack) = elim (step_byte r c stack) [
  | none ↦ none
  | some next ↦ read_steps cs next
]

abbrev pub read_node : Bytes → Parsed Node
read_node b =
    if bytes_eq b document
    then parsed node_of_document
    else elim (read_steps b (between, [])) [ none ↦ error_ptr | some n ↦ parsed n ]

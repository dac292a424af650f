-- ===== src/PortSet.antt =====
-- src/portset.rs: the listen-port expression, such as `80, 443, 10000-10100`.
-- `BTreeSet<u16>` is the list of its elements in ascending order.
pub mod Sets
pub mod Covers
pub mod Rounds
pub mod Loop
pub mod Parse
pub mod RoundTrip
pub mod Canonical
mod Tests
use range_porter.Prelude.{
  ℕ, zero, suc, ◌+◌, ◌-◌, Bool, List, [], ◌∷◌, ◌++◌, none, some, ltb, ◌==◌, if◌then◌else◌,
}
use range_porter.Result.{Result, ok, err, ◌>>=◌}
use range_porter.Text.{Text, codes, is_empty, trim, split, split_once, parse_u16}

-- `PortSetError`, which displays as its message.
pub record PortSetError : Type 0 where
  pub message : Text

pub empty_expression : PortSetError
empty_expression = record { message = codes "listen port expression cannot be empty" }

pub empty_segment : PortSetError
empty_segment = record { message = codes "listen port expression contains an empty segment" }

unfoldable pub inverted_range : Text → PortSetError
inverted_range segment = record {
  message = codes "invalid port range " ++ (segment ++ codes ": start must be <= end");
}

unfoldable pub invalid_port_value : Text → PortSetError
invalid_port_value segment = record { message = codes "invalid port value: " ++ segment }

pub port_zero : PortSetError
port_zero = record { message = codes "port 0 is not a valid listen port" }

unfoldable pub parse_port : Text → Result PortSetError ℕ
parse_port segment = elim (parse_u16 (trim segment)) [
  | none ↦ err (invalid_port_value segment)
  | some port ↦ if port == 0 then err port_zero else ok port
]

-- `BTreeSet::insert`.
pub insert : ℕ → List ℕ → List ℕ
insert p [] = p ∷ []
insert p (q ∷ ports) =
    let later = q ∷ insert p ports in
    if ltb p q then p ∷ q ∷ ports else if p == q then q ∷ ports else later

-- `BTreeSet::extend` with the `count` numbers from `start`.
pub extend : ℕ → ℕ → List ℕ → List ℕ
extend start zero ports = ports
extend start (suc count) ports = extend (suc start) count (insert start ports)

-- One round of the loop behind the test of the empty segment.
pub add_nonempty : Text → List ℕ → Result PortSetError (List ℕ)
add_nonempty segment ports = elim (split_once b'-' segment) [
  | some (first, last) ↦ do
    start ← parse_port first
    end ← parse_port last
    if ltb end start
        then err (inverted_range segment)
        else ok (extend start (suc end - start) ports)
  | none ↦ do port ← parse_port segment; ok (insert port ports)
]

-- One round of the loop.
pub add_segment : Text → List ℕ → Result PortSetError (List ℕ)
add_segment raw ports =
    if is_empty (trim raw) then err empty_segment else add_nonempty (trim raw) ports

pub add_segments : List Text → List ℕ → Result PortSetError (List ℕ)
add_segments [] ports = ok ports
add_segments (segment ∷ segments) ports = do
  ports' ← add_segment segment ports
  add_segments segments ports'

unfoldable pub parse_portset : Text → Result PortSetError (List ℕ)
unfolding add_segments add_segment add_nonempty parse_port insert extend
parse_portset input =
    if is_empty (trim input) then err empty_expression else add_segments (split b',' input) []

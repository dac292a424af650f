-- ===== src/Target.antt =====
-- src/target.rs: the target address, given as an address or as a host name to resolve.
pub mod HostPort
pub mod Resolve
pub mod Bound
pub mod Refresh
pub mod Resolver
mod Tests
use range_porter.Prelude.{
  ℕ, ◌+◌, Bool, List, [], ◌∷◌, ◌++◌, Option, none, some, take, drop, ◌==◌, if◌then◌else◌,
}
use range_porter.Result.{Result, ok, err, ◌>>=◌, ok_or}
use range_porter.Text.{Text, codes, is_empty, strip_prefix, find, rsplit_once, parse_u16}

-- An `anyhow` error, as its message.
pub record TargetError : Type 0 where
  pub message : Text

-- "invalid target `{raw}`: …".
unfoldable pub invalid_target : Text → Text → TargetError
invalid_target raw why = record {
  message = codes "invalid target `" ++ (raw ++ (codes "`: " ++ why));
}

pub missing_bracket : Text → TargetError
missing_bracket raw = invalid_target raw (codes "missing `]` in bracketed host")

pub no_port_after_bracket : Text → TargetError
no_port_after_bracket raw = invalid_target raw (codes "expected `:port` after `]`")

pub no_colon : Text → TargetError
no_colon raw = invalid_target raw (codes "expected `host:port`")

pub empty_host : Text → TargetError
empty_host raw = invalid_target raw (codes "host is empty")

pub not_a_port : Text → Text → TargetError
not_a_port port_part raw =
    invalid_target raw (codes "`" ++ (port_part ++ codes "` is not a valid port"))

pub zero_port : Text → TargetError
zero_port raw = invalid_target raw (codes "port must be non-zero")

unfoldable pub parse_port : Text → Text → Result TargetError ℕ
parse_port port_part raw = do
  port ← ok_or (parse_u16 port_part) (not_a_port port_part raw)
  if port == 0 then err (zero_port raw) else ok port

-- What follows the opening bracket.
unfoldable pub split_bracketed : Text → Text → Result TargetError (Text × ℕ)
split_bracketed raw rest = do
  end ← ok_or (find b']' rest) (missing_bracket raw)
  port_part ← ok_or (strip_prefix b':' (drop (end + 1) rest)) (no_port_after_bracket raw)
  port ← parse_port port_part raw
  ok (take end rest, port)

unfoldable pub split_plain : Text → Result TargetError (Text × ℕ)
split_plain raw = do
  cut ← ok_or (rsplit_once b':' raw) (no_colon raw)
  if is_empty (cut.0)
      then err (empty_host raw)
      else (do port ← parse_port (cut.1) raw; ok (cut.0, port))

unfoldable pub split_host_port : Text → Result TargetError (Text × ℕ)
unfolding split_bracketed split_plain
split_host_port raw = elim (strip_prefix b'[' raw) [
  | some rest ↦ split_bracketed raw rest
  | none ↦ split_plain raw
]

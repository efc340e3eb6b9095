-- ===== src/Wire/Registry.antt =====
-- server/adapters/wss/connection-registry.ts: which connection of a runner is the current one. Closing is
-- the list of the connections that a call closes; the new random identifier is an argument.
pub mod Fences
mod Scenarios
use collab.Base.{
  ℕ, ◌+◌, Bool, true, false, ◌&&◌, Option, none, some, List, [], ◌∷◌, String, ◌==◌, same, length,
  if◌then◌else◌,
}
use collab.Base.Table.{Table, get, set, delete}

pub data CloseReason : Type 0 where
  fenced revoked quiesce_reason : CloseReason

pub record Connection : Type 0 where
  pub connection_id : String
  pub fence : ℕ

pub record Registry : Type 0 where
  pub connections : Table Connection
  pub fences : Table ℕ
  pub quiesced : Bool

pub data Disposition : Type 0 where
  keep_connection close_runner_identity : Disposition
  request_termination : List String → Disposition

pub record Applied : Type 0 where
  pub applied : Bool
  pub closed : Bool
  pub requested_attempt_ids : Option (List String)

abbrev pub Closed : Type 0
Closed = List (String × CloseReason)

unfoldable pub new : Registry
new = record { connections = []; fences = []; quiesced = false }

abbrev or_zero : Option ℕ → ℕ
or_zero none = 0
or_zero (some n) = n

-- this.#fences.get(runnerId) ?? 0
unfoldable pub fence_of : String → Registry → ℕ
fence_of runner r = or_zero (get runner r.fences)

abbrev pub closing : CloseReason → Option Connection → Closed
closing why none = []
closing why (some c) = (c.connection_id, why) ∷ []

-- `none` is a thrown RUNNER_UPGRADES_QUIESCED.
unfoldable pub register : Registry → String → String → Option (Registry × Connection × Closed)
register r runner id =
    let c : Connection = record { connection_id = id; fence = fence_of runner r + 1 } in
    if r.quiesced
    then none
    else some (
      record {
        connections = set runner c r.connections;
        fences = set runner (fence_of runner r + 1) r.fences;
        quiesced = r.quiesced;
      },
      c,
      closing fenced (get runner r.connections),
    )

abbrev pub is_same : String → ℕ → Option Connection → Bool
is_same id fence none = false
is_same id fence (some c) = same c.connection_id id && c.fence == fence

unfoldable pub is_current : Registry → String → String → ℕ → Bool
is_current r runner id fence = is_same id fence (get runner r.connections)

unfoldable pub unregister : Registry → String → String → ℕ → Registry × Bool
unregister r runner id fence =
    if is_current r runner id fence
    then (record r { connections = delete runner r.connections }, true)
    else (r, false)

abbrev applied_to :
    Registry → String → Disposition → Option Connection → Registry × Applied × Closed
applied_to r runner d none =
    (r, record { applied = false; closed = false; requested_attempt_ids = none }, [])
applied_to r runner keep_connection (some c) =
    (r, record { applied = true; closed = false; requested_attempt_ids = none }, [])
applied_to r runner (request_termination ids) (some c) =
    (r, record { applied = true; closed = false; requested_attempt_ids = some ids }, [])
applied_to r runner close_runner_identity (some c) = (
  record r { connections = delete runner r.connections },
  record { applied = true; closed = true; requested_attempt_ids = none },
  (c.connection_id, revoked) ∷ [],
)

unfoldable pub apply_disposition : Registry → String → Disposition → Registry × Applied × Closed
apply_disposition r runner d = applied_to r runner d (get runner r.connections)

unfoldable pub all_closed : Table Connection → Closed
all_closed [] = []
all_closed ((runner, c) ∷ cs) = (c.connection_id, quiesce_reason) ∷ all_closed cs

unfoldable pub quiesce : Registry → Registry × ℕ × Closed
quiesce r =
    (record r { connections = []; quiesced = true }, length r.connections, all_closed r.connections)

-- ===== src/App/Data.antt =====
-- src/app.rs, the data types. Accessors are the records' fields. A string is the list of its
-- characters, and a `SystemTime` the nanoseconds since the Unix epoch.
use dsql_cli.Prelude.{ℕ, Bool, true, false, Option, none, List, [], Chars, codes}

pub data ClusterStatus : Type 0 where
  creating active idle inactive updating deleting deleted failed : ClusterStatus
  pending_setup pending_delete unknown : ClusterStatus

pub data EnrichmentErrorCategory : Type 0 where
  access_denied throttled not_found other : EnrichmentErrorCategory

pub data EnrichmentState : Type 0 where
  complete : EnrichmentState
  unavailable : EnrichmentErrorCategory → EnrichmentState

pub record DiscoverableCluster : Type 0 where
  pub id : Chars
  pub arn : Option Chars
  pub region : Chars
  pub endpoint : Option Chars
  pub status : Option ClusterStatus
  pub display_name : Option Chars
  pub enrichment : EnrichmentState

pub record ClusterTarget : Type 0 where
  pub id : Chars
  pub region : Chars
  pub endpoint : Option Chars
  pub arn : Option Chars
  pub status : Option ClusterStatus
  pub display_name : Option Chars

-- `ClusterTarget::resolved`
unfoldable pub resolved : Chars → Chars → Option Chars → Option Chars → ClusterTarget
resolved id region endpoint arn = record {
  id = id;
  region = region;
  endpoint = endpoint;
  arn = arn;
  status = none;
  display_name = none;
}

unfoldable pub from_discovered : DiscoverableCluster → ClusterTarget
from_discovered cluster = record {
  id = cluster.id;
  region = cluster.region;
  endpoint = cluster.endpoint;
  arn = cluster.arn;
  status = cluster.status;
  display_name = cluster.display_name;
}

pub data DatabaseRole : Type 0 where
  admin : DatabaseRole
  custom : Chars → DatabaseRole

unfoldable pub role_name : DatabaseRole → Chars
role_name admin = codes "admin"
role_name (custom name) = name

pub record ConnectionIntent : Type 0 where
  pub target : ClusterTarget
  pub role : DatabaseRole
  pub tls_roots : List Chars
  pub application_name : Chars

pub data CancellationCapability : Type 0 where
  cancellation_available cancellation_unavailable : CancellationCapability

pub data TransactionState : Type 0 where
  idle active failed uncertain : TransactionState

pub data SessionLiveness : Type 0 where
  alive lost : SessionLiveness

pub data ReconnectState : Type 0 where
  connected due deferred required uncertain : ReconnectState

unfoldable pub reconnect_label : ReconnectState → Chars
reconnect_label connected = codes "connected"
reconnect_label due = codes "due before next statement"
reconnect_label deferred = codes "deferred until transaction ends"
reconnect_label required = codes "required before next statement"
reconnect_label ReconnectState.uncertain = codes "blocked: session outcome uncertain"

pub record SessionSetting : Type 0 where
  pub name : Chars
  pub value : Chars

pub record SessionMetadata : Type 0 where
  pub intent : ConnectionIntent
  pub connected_at : ℕ
  pub cancellation : CancellationCapability
  pub transaction_state : TransactionState
  pub session_settings : List SessionSetting

pub data ExecutionEvent : Type 0 where
  columns : List Chars → ExecutionEvent
  row : List (Option Chars) → ExecutionEvent
  command_complete : ℕ → ExecutionEvent
  notice : Chars → ExecutionEvent
  error : Option Chars → Chars → ExecutionEvent

pub record RelationName : Type 0 where
  pub schema : Chars
  pub relation : Chars

pub record ColumnName : Type 0 where
  pub schema : Chars
  pub relation : Chars
  pub column : Chars

pub record MetadataSnapshot : Type 0 where
  pub schemas : List Chars
  pub relations : List RelationName
  pub columns : List ColumnName
  pub roles : List DatabaseRole
  pub loaded_at : Option ℕ
  pub stale : Bool

unfoldable pub empty_snapshot : MetadataSnapshot
empty_snapshot = record {
  schemas = [];
  relations = [];
  columns = [];
  roles = [];
  loaded_at = none;
  stale = false;
}

unfoldable pub invalidate : MetadataSnapshot → MetadataSnapshot
unfolding empty_snapshot
invalidate snapshot = record empty_snapshot { stale = true }

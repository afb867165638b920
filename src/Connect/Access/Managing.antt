-- ===== src/Connect/Access/Managing.antt =====
-- register_consumer, update_consumer and what rests on it in src/services/oauth_service.py of
-- services/connect-service, and `activate` of src/routers/consumer_management.py.
use multi_tenant_event_drive.Prelude.{
  ℕ, String, Bool, true, false, ◌&&◌, Option, none, some, List, [], ◌∷◌, ◌++◌, ◌==◌, or_else,
  if◌then◌else◌,
}
use multi_tenant_event_drive.Prelude.Table.{find, has, update}
use multi_tenant_event_drive.Connect.Access.{
  Consumer, ConsumerRow, row_id, Access, get_consumer, invalidate_consumer_cache,
}

-- The arguments of register_consumer, and what the libraries and the database generate.
pub record NewConsumer : Type 0 where
  pub name : String
  pub description : Option String
  pub scopes : List String
  pub rate_limit_requests : Option ℕ
  pub rate_limit_window_seconds : Option ℕ
  pub created_by : String

pub record Generated : Type 0 where
  pub consumer_id : ℕ
  pub client_id : String
  pub client_secret_hash : String
  pub webhook_signing_secret : String
  pub now : ℕ

-- `x or default`: 0 is falsy too.
abbrev pub or_default : Option ℕ → ℕ → ℕ
or_default none d = d
or_default (some n) d = if n == 0 then d else n

abbrev pub new_consumer : NewConsumer → Generated → ConsumerRow
new_consumer body g = record {
  consumer = record {
    consumer_id = g.consumer_id;
    name = body.name;
    description = body.description;
    client_id = g.client_id;
    scopes = body.scopes;
    status = "active";
    webhook_url = none;
    webhook_event_types = [];
    webhook_signing_secret = g.webhook_signing_secret;
    rate_limit_requests = or_default body.rate_limit_requests 1000;
    rate_limit_window_seconds = or_default body.rate_limit_window_seconds 300;
    metadata = "{}";
    created_at = g.now;
    updated_at = g.now;
    created_by = body.created_by;
  };
  client_secret_hash = g.client_secret_hash;
}

-- `none` is the violation of the PRIMARY KEY.
unfoldable pub register_consumer : NewConsumer → Generated → Access → Option (Consumer × Access)
register_consumer body g a =
    if has row_id g.consumer_id a.consumers
    then none
    else let row = new_consumer body g in
      some (row.consumer, record a { consumers = a.consumers ++ row ∷ [] })

-- The columns that update_consumer is given, and that are not None.
pub record Updates : Type 0 where
  pub name : Option String
  pub description : Option String
  pub scopes : Option (List String)
  pub status : Option String
  pub webhook_url : Option String
  pub webhook_event_types : Option (List String)
  pub webhook_signing_secret : Option String
  pub rate_limit_requests : Option ℕ
  pub rate_limit_window_seconds : Option ℕ
  pub metadata : Option String

abbrev pub absent : {A : Type 0} → Option A → Bool
absent none = true
absent (some a) = false

abbrev pub no_updates : Updates → Bool
no_updates u =
    absent u.name
    && (absent u.description
        && (absent u.scopes
            && (absent u.status
                && (absent u.webhook_url
                    && (absent u.webhook_event_types
                        && (absent u.webhook_signing_secret
                            && (absent u.rate_limit_requests
                                && (absent u.rate_limit_window_seconds && absent u.metadata))))))))

abbrev pub or_keep : {A : Type 0} → Option A → Option A → Option A
or_keep none old = old
or_keep (some new) old = some new

abbrev pub set_consumer : (now : ℕ) → Updates → ConsumerRow → ConsumerRow
set_consumer now u r = record r {
  consumer = record r.consumer {
    name = or_else u.name r.consumer.name;
    description = or_keep u.description r.consumer.description;
    scopes = or_else u.scopes r.consumer.scopes;
    status = or_else u.status r.consumer.status;
    webhook_url = or_keep u.webhook_url r.consumer.webhook_url;
    webhook_event_types = or_else u.webhook_event_types r.consumer.webhook_event_types;
    webhook_signing_secret = or_else u.webhook_signing_secret r.consumer.webhook_signing_secret;
    rate_limit_requests = or_else u.rate_limit_requests r.consumer.rate_limit_requests;
    rate_limit_window_seconds =
        or_else u.rate_limit_window_seconds r.consumer.rate_limit_window_seconds;
    metadata = or_else u.metadata r.consumer.metadata;
    updated_at = now;
  };
}

-- UPDATE … WHERE consumer_id = … RETURNING *, and the key in Redis deleted where there was a row.
unfoldable pub change_row :
    (consumer_id : ℕ) → (ConsumerRow → ConsumerRow) → Access → Option Consumer × Access
unfolding invalidate_consumer_cache
change_row consumer_id change a = elim (find row_id consumer_id a.consumers) [
  | none ↦ (none, a)
  | some r ↦ (
    some (change r).consumer,
    record a {
      consumers = update row_id consumer_id change a.consumers;
      redis = invalidate_consumer_cache consumer_id a.redis;
    },
  )
]

unfoldable pub update_consumer : (now consumer_id : ℕ) → Updates → Access → Option Consumer × Access
unfolding get_consumer change_row
update_consumer now consumer_id u a =
    if no_updates u
    then (get_consumer consumer_id a.consumers, a)
    else change_row consumer_id (set_consumer now u) a

abbrev pub set_status : String → Updates
set_status status = record {
  name = none;
  description = none;
  scopes = none;
  status = some status;
  webhook_url = none;
  webhook_event_types = none;
  webhook_signing_secret = none;
  rate_limit_requests = none;
  rate_limit_window_seconds = none;
  metadata = none;
}

unfoldable pub suspend_consumer : (now consumer_id : ℕ) → Access → Option Consumer × Access
unfolding update_consumer
suspend_consumer now consumer_id a = update_consumer now consumer_id (set_status "suspended") a

unfoldable pub revoke_consumer : (now consumer_id : ℕ) → Access → Option Consumer × Access
unfolding update_consumer
revoke_consumer now consumer_id a = update_consumer now consumer_id (set_status "revoked") a

-- activate_consumer_endpoint of src/routers/consumer_management.py
unfoldable pub activate_consumer : (now consumer_id : ℕ) → Access → Option Consumer × Access
unfolding update_consumer
activate_consumer now consumer_id a = update_consumer now consumer_id (set_status "active") a

abbrev pub set_secret : (now : ℕ) → String → ConsumerRow → ConsumerRow
set_secret now hash r = record r {
  consumer = record r.consumer { updated_at = now };
  client_secret_hash = hash;
}

unfoldable pub rotate_secret :
    (now consumer_id : ℕ) → (hash : String) → Access → Option Consumer × Access
unfolding change_row
rotate_secret now consumer_id hash a = change_row consumer_id (set_secret now hash) a

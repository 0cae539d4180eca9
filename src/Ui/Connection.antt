-- ===== src/Ui/Connection.antt =====
-- settlr-ui/src/hooks/useWebSocket.ts. A hook's state is what its refs, its sockets and the pending
-- timeouts hold; the browser calls the handlers in any order. Sockets and timeouts are numbered in
-- the order in which they are made. Whether the constructor of a socket throws is a parameter.
pub mod Attempts
pub mod Single
use settlr.Prelude.{
  ℕ, suc, ◌-◌, ◌*◌, ◌^◌, ◌≡◌, Bool, true, false, not, ◌||◌, Option, none, some, List, [], ◌∷◌,
  String, min, leb, ◌==◌, if◌then◌else◌,
}

-- MAX_RETRIES, BASE_DELAY and MAX_DELAY
abbrev pub max_retries : ℕ
max_retries = 10

abbrev pub base_delay : ℕ
base_delay = 1000

abbrev pub max_delay : ℕ
max_delay = 30000

-- A call of setTimeout that has not run: its number and its delay in milliseconds.
pub record Timeout : Type 0 where
  pub number : ℕ
  pub delay : ℕ

pub record Hook : Type 0 where
  pub mounted : Bool
  pub retries : ℕ
  pub connected : Bool
  pub sockets : List ℕ  -- those whose close event has not come
  pub current : Option ℕ  -- wsRef
  pub timeouts : List Timeout
  pub reconnect_timeout : Option ℕ  -- reconnectTimeoutRef
  pub attempts : ℕ  -- calls of the constructor so far
  pub timeouts_set : ℕ

abbrev pub fresh : Hook
fresh = record {
  mounted = false;
  retries = 0;
  connected = false;
  sockets = [];
  current = none;
  timeouts = [];
  reconnect_timeout = none;
  attempts = 0;
  timeouts_set = 0;
}

unfoldable pub without : ℕ → List ℕ → List ℕ
without n [] = []
without n (m ∷ ms) = let rest = without n ms in if n == m then rest else m ∷ rest

unfoldable pub without_timeout : ℕ → List Timeout → List Timeout
without_timeout n [] = []
without_timeout n (t ∷ ts) =
    let rest = without_timeout n ts in if n == t.number then rest else t ∷ rest

abbrev pub has_socket : ℕ → List ℕ → Bool
has_socket n [] = false
has_socket n (m ∷ ms) = (n == m) || has_socket n ms

abbrev pub is_pending : ℕ → List Timeout → Bool
is_pending n [] = false
is_pending n (t ∷ ts) = (n == t.number) || is_pending n ts

-- clearTimeout, if there is something to clear
abbrev pub clear_timeout : Option ℕ → List Timeout → List Timeout
clear_timeout none ts = ts
clear_timeout (some n) ts = without_timeout n ts

-- WebSocketMessage, as far as it was read: JSON.parse may throw, and a type may be unknown.
pub data MessageType : Type 0 where
  transaction fraud_alert system_status : MessageType

abbrev pub stale_queries : Option MessageType → List String
stale_queries (some MessageType.transaction) =
    "recent-transactions" ∷ "admin-live" ∷ "transactions" ∷ []
stale_queries (some MessageType.fraud_alert) = "admin-flagged" ∷ "fraud-stats" ∷ []
stale_queries (some MessageType.system_status) = []
stale_queries none = []

-- onmessage: the keys of the queries that are invalidated
abbrev pub on_message : Option MessageType → Hook → List String
on_message m h = if h.mounted then stale_queries m else []

module _ (constructs : ℕ → Bool) where
  -- new WebSocket(wsUrl), in its `try`
  abbrev pub open_socket : Bool → Hook → Hook
  open_socket true h = record h {
    sockets = h.attempts ∷ h.sockets;
    current = some h.attempts;
    attempts = suc h.attempts;
  }
  open_socket false h = record h { attempts = suc h.attempts }

  unfoldable pub connect : Hook → Hook
  connect h =
      if not h.mounted || leb max_retries h.retries
      then h
      else open_socket (constructs h.attempts) h

  -- What the effect does when the component mounts.
  unfoldable pub mount : Hook → Hook
  unfolding connect
  mount h = connect (record h { mounted = true; retries = 0 })

  -- Its clean-up: the close event of the socket comes later.
  unfoldable pub unmount : Hook → Hook
  unmount h = record h {
    mounted = false;
    timeouts = clear_timeout h.reconnect_timeout h.timeouts;
    current = none;
  }

  unfoldable pub on_open : Hook → Hook
  on_open h = if not h.mounted then h else record h { retries = 0; connected = true }

  -- The delay before the next attempt, after a number of failures.
  abbrev pub delay_after : ℕ → ℕ
  delay_after n = min (base_delay * 2 ^ (n - 1)) max_delay

  abbrev pub reconnect_later : Hook → Hook
  reconnect_later h =
      let n = suc h.retries in
      if leb max_retries n then record h { retries = n } else record h {
        retries = n;
        timeouts = record { number = h.timeouts_set; delay = delay_after n } ∷ h.timeouts;
        reconnect_timeout = some h.timeouts_set;
        timeouts_set = suc h.timeouts_set;
      }

  unfoldable pub on_close : ℕ → Hook → Hook
  on_close i h =
      let h' = record h { sockets = without i h.sockets; connected = false } in
      if not h.mounted then h' else reconnect_later h'

  -- A pending timeout runs `connect`.
  unfoldable pub on_timeout : ℕ → Hook → Hook
  unfolding connect
  on_timeout n h = connect (record h { timeouts = without_timeout n h.timeouts })

  -- What may happen to a mounted component, or to the sockets and timeouts that it left behind: first
  -- without a connection, then with one.
  pub data Failure (h : Hook) : Hook → Type 0 where
    closes : (i : ℕ) → has_socket i h.sockets ≡ true → Failure h (on_close i h)
    fires : (n : ℕ) → is_pending n h.timeouts ≡ true → Failure h (on_timeout n h)
    unmounts : h.mounted ≡ true → Failure h (unmount h)

  pub data Failures (h : Hook) : Hook → Type 0 where
    none_yet : Failures h h
    one_more : {h' h'' : Hook} → Failures h h' → Failure h' h'' → Failures h h''

  pub data Life (h : Hook) : Hook → Type 0 where
    begins : Life h h
    fails : {h' h'' : Hook} → Life h h' → Failure h' h'' → Life h h''
    opens : {h' : Hook} (i : ℕ) → Life h h' → has_socket i h'.sockets ≡ true → Life h (on_open h')

-- ===== src/Notify.antt =====
-- internal/notification/notification.go: how an event goes to the channels of a configuration, and to
-- the outbox when a channel fails. The network is the parameter `Net`.
pub mod Queueing
mod Tests
use sbackup.Base.{
  ℕ, suc, String, Bool, true, false, not, ◌||◌, List, [], ◌∷◌, ◌++◌, map, Option, none, some,
  Result, ok, err, ◌>>=◌, if◌then◌else◌, ltb, ◌==◌, string_eq,
}
use sbackup.Base.Int.{ℤ, pos, itoa, ltb_ℤ}
use sbackup.Base.Text.{concat, join, atoi_value}
use sbackup.Base.Maps.{lookup}
use sbackup.Config.{
  Config, Notification, notification, Any, Item, text, int, float, strings, items, other,
  string_item, printed_item,
}
use sbackup.Executor.{redact}
use sbackup.Store.{Outbox, StoreError}
use sbackup.Store.Queue.{enqueue}

pub record Event : Type 0 where
  pub title : String
  pub body : String
  pub status : String
  pub node : String
  pub job_id : String
  pub job_name : String
  pub run_id : String
  pub time : ℕ

-- What `json.Marshal` is given: an event, or a map of texts and one number.
pub data Payload : Type 0 where
  event : Event → Payload
  object : List (String × String) → Payload
  prioritized : List (String × String) → ℕ → Payload

-- The mail that the SMTP client is given.
pub record Mail : Type 0 where
  pub address : String
  pub host : String
  pub username : String
  pub password : String
  pub from : String
  pub to : List String
  pub message : String

-- `none` is success; `post` gives the status of the answer. A row that is queued takes the identifier
-- and the time of its place among the rows of one call.
pub record Net : Type 0 where
  pub read_secret : String → Result String (List (String × String))
  pub join_host_port : String → String → String
  pub send_mail : Mail → Option String
  pub send_tls : Mail → Option String
  pub post : String → Payload → Result String ℕ
  pub encode : Event → Result String String
  pub queue_id : ℕ → String
  pub queued_at : ℕ → ℕ
  pub queue_error : StoreError → String

-- `str`
unfoldable pub str : Any → String
str (text s) = s
str (int n) = itoa n
str (float n printed) = printed
str (strings xs printed) = printed
str (items xs printed) = printed
str (other printed) = printed

abbrev positive_or : ℤ → ℤ → ℤ
positive_or d i = if ltb_ℤ (pos 0) i then i else d

-- `integer`
unfoldable pub integer : Any → ℤ → ℤ
unfolding atoi_value
integer (text s) d = positive_or d (atoi_value s)
integer (int n) d = n
integer (float n printed) d = n
integer (strings xs printed) d = d
integer (items xs printed) d = d
integer (other printed) d = d

abbrev item_str : Item → String
item_str (string_item s) = s
item_str (printed_item s) = s

-- `stringsList`
unfoldable pub strings_list : Any → List String
strings_list (text s) = s ∷ []
strings_list (int n) = []
strings_list (float n printed) = []
strings_list (strings xs printed) = xs
strings_list (items xs printed) = map item_str xs
strings_list (other printed) = []

abbrev found : Option Any → Any
found none = other "<nil>"
found (some v) = v

abbrev pub setting : Notification → String → Any
setting n key = found (lookup key n.settings)

abbrev text_of : Option String → String
text_of none = ""
text_of (some s) = s

abbrev pub secret_value : List (String × String) → String → String
secret_value secret key = text_of (lookup key secret)

module _ (net : Net) where
  unfoldable pub mail : Notification → List (String × String) → Event → Mail
  unfolding str integer strings_list
  mail n secret e =
      let host = str (setting n "host") in
      let from = str (setting n "from") in
      let to = strings_list (setting n "to") in
      record {
        address = net.join_host_port host (itoa (integer (setting n "port") (pos 587)));
        host = host;
        username = secret_value secret "username";
        password = secret_value secret "password";
        from = from;
        to = to;
        message = concat (
            "From: "
            ∷ from
            ∷ "\r\nTo: "
            ∷ join "," to
            ∷ "\r\nSubject: "
            ∷ e.title
            ∷ "\r\nContent-Type: text/plain; charset=UTF-8\r\n\r\n"
            ∷ e.body
            ∷ "\r\n"
            ∷ []);
      }

  -- `sendSMTP`; the dialogue with the server is outside
  unfoldable pub send_smtp : Notification → List (String × String) → Event → Option String
  unfolding mail
  send_smtp n secret e =
      let tls = net.send_tls (mail n secret e) in
      let plain = net.send_mail (mail n secret e) in
      if str (setting n "security") == "tls" then tls else plain

  abbrev webhook_url : String → String → String
  webhook_url url fallback = if url == "" then fallback else url

  -- The URL and the payload by the kind of the channel.
  unfoldable pub http_target : Notification → List (String × String) → Event → String × Payload
  unfolding str
  http_target n secret e =
      let url = str (setting n "url") in
      if n.type == "telegram"
      then (
        concat (
            "https://api.telegram.org/bot" ∷ secret_value secret "bot_token" ∷ "/sendMessage" ∷ []),
        object (
            ("chat_id", secret_value secret "chat_id")
            ∷ ("text", concat (e.title ∷ "\n" ∷ e.body ∷ []))
            ∷ []),
      )
      else if n.type == "webhook"
      then (webhook_url (secret_value secret "url") url, event e)
      else if n.type == "gotify"
      then (
        concat (url ∷ "/message?token=" ∷ secret_value secret "app_token" ∷ []),
        prioritized (("title", e.title) ∷ ("message", e.body) ∷ []) 8,
      )
      else if n.type == "ntfy"
      then (
        concat (url ∷ "/" ∷ secret_value secret "topic" ∷ []),
        object (
            ("topic", secret_value secret "topic") ∷ ("title", e.title) ∷ ("message", e.body) ∷ []),
      )
      else (
        concat (url ∷ "/" ∷ secret_value secret "device_key" ∷ []),
        object (("title", e.title) ∷ ("body", e.body) ∷ []),
      )

  abbrev answered : Result String ℕ → Option String
  answered (err e) = some e
  answered (ok status) =
      if ltb status 200 || not (ltb status 300)
      then some (concat ("通知服务返回 HTTP " ∷ itoa (pos status) ∷ []))
      else none

  abbrev posted : String × Payload → Option String
  posted (url, payload) = answered (net.post url payload)

  -- `sendHTTP`, which redacts the body first
  unfoldable pub send_http : Notification → List (String × String) → Event → Option String
  unfolding http_target
  send_http n secret e = posted (http_target n secret (record e { body = redact e.body }))

  abbrev is_http : String → Bool
  is_http type =
      type == "telegram"
      || (type == "webhook" || (type == "gotify" || (type == "ntfy" || type == "bark")))

  abbrev by_type : Notification → Event → Result String (List (String × String)) → Option String
  by_type n e (err failure) = some failure
  by_type n e (ok secret) =
      let smtp = send_smtp n secret e in
      let http = send_http n secret e in
      if n.type == "smtp"
      then smtp
      else if is_http n.type
      then http
      else some (concat ("不支持的通知类型 " ∷ n.type ∷ []))

  abbrev to_channel : String → Event → Option Notification → Option String
  to_channel id e none = some (concat ("通知不存在: " ∷ id ∷ []))
  to_channel id e (some n) =
      let secret = if n.secret_file == "" then ok [] else net.read_secret n.secret_file in
      if n.enabled then by_type n e secret else none

  -- `Send`: `none` is success, also when the channel is switched off
  unfoldable pub send : Config → String → Event → Option String
  unfolding send_smtp send_http notification
  send c id e = to_channel id e (notification c id)

  abbrev pub not_queued : String → String → String → String
  not_queued id failure q = concat ("通知 " ∷ id ∷ " 发送失败: " ∷ failure ∷ "；加入重试队列失败: " ∷ q ∷ [])

  abbrev inserted :
      String → String → List Outbox → Result StoreError (List Outbox) → List String × List Outbox
  inserted id failure rows (ok rows') = ([], rows')
  inserted id failure rows (err q) = (not_queued id failure (net.queue_error q) ∷ [], rows)

  abbrev queued :
      ℕ → String → String → List Outbox → Result String String → List String × List Outbox
  queued k id failure rows (err q) = (not_queued id failure q ∷ [], rows)
  queued k id failure rows (ok payload) =
      inserted id failure rows
        (enqueue (net.queue_id k) (net.queued_at k) "notification" id payload rows)

  abbrev pub sent_or_queued :
      ℕ → String → Event → List Outbox → Option String → List String × List Outbox
  sent_or_queued k id e rows none = ([], rows)
  sent_or_queued k id e rows (some failure) = queued k id failure rows (net.encode e)

  abbrev pub and_then :
      List String × List Outbox
      → (List Outbox → List String × List Outbox)
      → List String × List Outbox
  and_then (errors, rows) rest = let (more, rows') = rest rows in (errors ++ more, rows')

  -- The loop of `SendIDs`, from the k-th identifier on; the errors are joined.
  unfoldable pub send_ids :
      Config → ℕ → List String → Event → List Outbox → List String × List Outbox
  unfolding send enqueue
  send_ids c k [] e rows = ([], rows)
  send_ids c k (id ∷ ids) e rows =
      and_then (sent_or_queued k id e rows (send c id e)) (λ rows'. send_ids c (suc k) ids e rows')

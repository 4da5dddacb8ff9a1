-- ===== src/Http/Answers.antt =====
-- send_json, send_error_json, node_id_string, add_node_status_message, url_after_prefix and
-- serve_static of src/http_server.c.
use bo_smart_factory_opcua_t.Base.{
  ℕ, zero, suc, ◌+◌, ◌/◌, ◌%◌, ◌==◌, Bool, true, false, not, [], ◌∷◌, ◌++◌, Option, none, some,
  CString, codes, str_eq, fit, if◌then◌else◌, length,
}
use bo_smart_factory_opcua_t.Config.Storage.{Storage, Env, set_variable}
use bo_smart_factory_opcua_t.Config.Json.{CJson}
use bo_smart_factory_opcua_t.Nodes.Server.{StatusCode, bad_invalid_argument, bad_node_id_exists}

pub record Response : Type 0 where
  pub status : ℕ
  pub content_type : CString
  pub body : CString

-- MHD_NO, MHD_YES with the response that was queued, or strlen(NULL).
pub data Answer : Type 0 where
  no undefined : Answer
  queued : Response → Answer

-- apiResult != MHD_NO
abbrev pub is_answered : Answer → Bool
is_answered no = false
is_answered _ = true

-- Whether libmicrohttpd creates and queues the response.
abbrev pub Queue : Type 0
Queue = Response → Bool

abbrev pub queue_response : Queue → Response → Answer
queue_response queue r = if queue r then queued r else no

abbrev pub json_type : CString
json_type = codes "application/json"

unfoldable pub send_json : Queue → ℕ → CString → Answer
send_json queue status json =
    queue_response queue (record { status = status; content_type = json_type; body = json })

-- A text that is not looked at before it is sent.
abbrev pub send_text : Queue → ℕ → Option CString → Answer
send_text queue status none = undefined
send_text queue status (some text) = send_json queue status text

-- A text that is sent unless it is NULL.
abbrev pub send_checked : Queue → ℕ → Option CString → Answer
send_checked queue status none = no
send_checked queue status (some text) = send_json queue status text

unfoldable pub send_error_json : CJson → Queue → ℕ → CString → Answer
unfolding send_json
send_error_json c queue status msg =
    send_checked queue status (c.print_unformatted (c.object ((codes "error", c.string msg) ∷ [])))

abbrev pub http_ok : ℕ
http_ok = 200

abbrev pub http_bad_request : ℕ
http_bad_request = 400

abbrev pub http_not_found : ℕ
http_not_found = 404

abbrev pub browse_name_invalid_msg : CString
browse_name_invalid_msg =
    codes "browseName may only contain letters, digits, and underscores (no spaces)"

-- `status_name` is UA_StatusCode_name.
unfoldable pub add_node_status_message : (StatusCode → CString) → StatusCode → CString
add_node_status_message status_name bad_invalid_argument = browse_name_invalid_msg
add_node_status_message status_name bad_node_id_exists = codes "browseName already exists"
add_node_status_message status_name rc = status_name rc

-- "%u", with at most `digits` + 1 digits; 5 are enough for a UA_UInt16.
abbrev decimal : ℕ → ℕ → CString
decimal zero n = (b'0' + n % 10) ∷ []
decimal (suc digits) n =
    if n / 10 == 0 then (b'0' + n % 10) ∷ [] else decimal digits (n / 10) ++ (b'0' + n % 10) ∷ []

unfoldable pub node_id_string : ℕ → CString → ℕ → CString
node_id_string ns browse_name bufsz =
    fit bufsz (codes "ns=" ++ (decimal 4 ns ++ (codes ";s=" ++ browse_name)))

-- `none` is NULL: strncmp(url, prefix, strlen(prefix)) != 0.
unfoldable pub url_after_prefix : CString → CString → Option CString
url_after_prefix url [] = some url
url_after_prefix [] (p ∷ prefix) = none
url_after_prefix (u ∷ url) (p ∷ prefix) = if u == p then url_after_prefix url prefix else none

abbrev has_prefix : CString → CString → Bool
has_prefix url prefix = elim (url_after_prefix url prefix) [ none ↦ false | some _ ↦ true ]

-- strstr(s, t) != NULL
unfoldable pub contains : CString → CString → Bool
unfolding url_after_prefix
contains [] t = has_prefix [] t
contains (c ∷ s) t = if has_prefix (c ∷ s) t then true else contains s t

unfoldable pub content_type_of : CString → CString
unfolding contains
content_type_of rel =
    if contains rel (codes ".html")
    then codes "text/html; charset=utf-8"
    else if contains rel (codes ".css")
    then codes "text/css"
    else if contains rel (codes ".js")
    then codes "application/javascript"
    else codes "text/plain"

-- init_web_root over the initial value of g_webRoot.
unfoldable pub init_web_root : Env → CString
init_web_root env = elim (set_variable env (codes "OPCUA_HTTP_WEB_ROOT")) [
  | none ↦ codes "./web/opcua-server"
  | some s ↦ fit 512 s
]

abbrev pub static_rel : CString → CString
static_rel url = if str_eq url (codes "/") then codes "/index.html" else url

-- The file is sent as it is; an ftell that fails is left out.
unfoldable pub serve_static : Env → Queue → CString → Storage → CString → Answer
unfolding content_type_of
serve_static env queue web_root st url =
    let rel = static_rel url in
    elim (st.files (fit 768 (web_root ++ rel))) [
      | none ↦ no
      | some contents ↦
          let sz = length contents in
          if not (env.malloc sz)
          then no
          else if not (env.fread sz == sz)
          then no
          else queue_response queue
              (record { status = http_ok; content_type = content_type_of rel; body = contents })
    ]

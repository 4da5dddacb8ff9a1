-- ===== src/Http/Body.antt =====
-- read_post_body of src/http_server.c, and the part of access_handler that collects a body.
pub mod Collect
use bo_smart_factory_opcua_t.Base.{
  ℕ, Bool, true, false, not, ◌||◌, List, [], ◌∷◌, ◌++◌, Option, none, some, CString, codes, str_eq,
  until_nul, if◌then◌else◌,
}

-- *con_cls: NULL, POST_RECV_MARKER, or an allocated buffer with its bytes.
pub data ConCls : Type 0 where
  null marker : ConCls
  buffer : List ℕ → ConCls

-- What a call of access_handler leaves in *con_cls and of the upload.
pub record Upload : Type 0 where
  pub con_cls : ConCls
  pub data_left : List ℕ

-- Whether malloc, strdup and realloc give memory in this call.
-- The result is the string that is returned, `none` for NULL. A buffer is measured by strlen.
unfoldable pub read_post_body : Bool → List ℕ → ConCls → Option CString × Upload
read_post_body memory [] (buffer b) =
    (some (until_nul b), record { con_cls = buffer b; data_left = [] })
read_post_body memory (d ∷ rest) (buffer b) =
    let whole = until_nul b ++ d ∷ rest in
    if memory
    then (some (until_nul whole), record { con_cls = buffer whole; data_left = [] })
    else (none, record { con_cls = buffer b; data_left = d ∷ rest })
read_post_body memory [] _ =
    if memory
    then (some [], record { con_cls = buffer []; data_left = [] })
    else (none, record { con_cls = null; data_left = [] })
read_post_body memory (d ∷ rest) _ =
    if memory
    then (some (until_nul (d ∷ rest)), record { con_cls = buffer (d ∷ rest); data_left = [] })
    else (none, record { con_cls = null; data_left = d ∷ rest })

abbrev pub unmark : ConCls → ConCls
unmark marker = null
unmark c = c

abbrev pub has_body : CString → Bool
has_body method = str_eq method (codes "PUT") || str_eq method (codes "POST")

-- The body, or `none` where access_handler returns MHD_YES and waits for another call.
unfoldable pub collect_body : Bool → List ℕ → ConCls → Option CString × Upload
unfolding read_post_body
collect_body memory (d ∷ rest) con = (none, (read_post_body memory (d ∷ rest) (unmark con)).1)
collect_body memory [] null = (none, record { con_cls = marker; data_left = [] })
collect_body memory [] marker = read_post_body memory [] null
collect_body memory [] (buffer b) = read_post_body memory [] (buffer b)

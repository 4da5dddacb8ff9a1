-- ===== src/Http/Body/Collect.antt =====
-- The calls of libmicrohttpd for one request with a body, and the body that comes out.
use mathlib.Core.List.{append_assoc, append-nil}
use bo_smart_factory_opcua_t.Base.{
  ℕ, ◌≡◌, refl, sym, ap, true, List, [], ◌∷◌, ◌++◌, Option, none, some, CString, until_nul_of_NoNul,
  NoNul, subst,
}
use bo_smart_factory_opcua_t.Http.Body.{
  ConCls, null, marker, buffer, Upload, read_post_body, collect_body,
}

-- A chunk of the upload: a first byte and the others.
abbrev pub Chunk : Type 0
Chunk = ℕ × List ℕ

abbrev pub bytes : List Chunk → List ℕ
bytes [] = []
bytes ((d, rest) ∷ chunks) = (d ∷ rest) ++ bytes chunks

-- What a call leaves: the body that is handed to the handlers, if any, *con_cls, and the bytes of
-- the chunk that were not taken.
abbrev pub Call : Type 0
Call = Option CString × Upload

-- The calls with the chunks, and the last call, without data; all find memory. Each gets the
-- *con_cls that the one before left.
unfoldable pub collect_chunks : ConCls → List Chunk → List Call
unfolding collect_body
collect_chunks con [] = collect_body true [] con ∷ []
collect_chunks con ((d, rest) ∷ chunks) =
    let call = collect_body true (d ∷ rest) con in call ∷ collect_chunks call.1.con_cls chunks

-- The calls for the whole request: libmicrohttpd first calls without data.
unfoldable pub collect_request : List Chunk → List Call
unfolding collect_chunks collect_body
collect_request chunks =
    let call = collect_body true [] null in call ∷ collect_chunks call.1.con_cls chunks

-- A call that waits for another: nothing is handed over, and the whole chunk is taken.
abbrev pub waits : ConCls → Call
waits con = (none, record { con_cls = con; data_left = [] })

-- The calls that wait, with the bytes that came before them.
unfoldable pub waiting_calls : List ℕ → List Chunk → List Call
waiting_calls b [] = []
waiting_calls b ((d, rest) ∷ chunks) =
    waits (buffer (b ++ d ∷ rest)) ∷ waiting_calls (b ++ d ∷ rest) chunks

-- The call that hands a body over.
abbrev pub hands_over : CString → Call
hands_over body = (some body, record { con_cls = buffer body; data_left = [] })

NoNul-left : (xs ys : CString) → NoNul (xs ++ ys) → NoNul xs
NoNul-left [] ys h = tt
NoNul-left (x ∷ xs) ys h = (h.0, NoNul-left xs ys h.1)

collect_chunks-buffer :
    (b : List ℕ) (chunks : List Chunk)
    → NoNul (b ++ bytes chunks)
    → NoNul b
    → collect_chunks (buffer b) chunks
      ≡ waiting_calls b chunks ++ hands_over (b ++ bytes chunks) ∷ []
unfolding collect_chunks collect_body read_post_body waiting_calls
collect_chunks-buffer b [] h k = rw (append-nil b, until_nul_of_NoNul b k) refl
collect_chunks-buffer b ((d, rest) ∷ chunks) h k =
    let same : (b ++ d ∷ rest) ++ bytes chunks ≡ b ++ ((d ∷ rest) ++ bytes chunks) =
      append_assoc b (d ∷ rest) (bytes chunks) in
    let h' : NoNul ((b ++ d ∷ rest) ++ bytes chunks) = subst NoNul (sym same) h in
    rw (until_nul_of_NoNul b k, ← same)
      (ap (◌∷◌ (waits (buffer (b ++ d ∷ rest)))) (
        collect_chunks-buffer (b ++ d ∷ rest) chunks h'
          (NoNul-left (b ++ d ∷ rest) (bytes chunks) h')))

-- While every allocation succeeds, a body without a NUL byte that arrives in any number of chunks
-- that are not empty is handed to the handlers whole, once, in the last call: the chunks one after
-- another, and "" if there are none. Each call before hands nothing over and takes its chunk whole.
-- The first leaves the marker, and the others an allocated buffer with the bytes that have come.
pub collect_request_lem :
    (chunks : List Chunk)
    → NoNul (bytes chunks)
    → collect_request chunks
      ≡ waits marker ∷ waiting_calls [] chunks ++ hands_over (bytes chunks) ∷ []
unfolding collect_request collect_chunks collect_body read_post_body waiting_calls
collect_request_lem [] h = refl
collect_request_lem ((d, rest) ∷ chunks) h =
    ap (λ calls. waits marker ∷ waits (buffer (d ∷ rest)) ∷ calls)
      (collect_chunks-buffer (d ∷ rest) chunks h (NoNul-left (d ∷ rest) (bytes chunks) h))

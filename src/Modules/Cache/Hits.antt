-- ===== src/Modules/Cache/Hits.antt =====
-- What a stored response answers.
use modular_rust_reverse_pro.Base.{
  ℕ, ◌+◌, ◌*◌, ◌≡◌, refl, true, none, some, [], lit, text_eq, text_beq_iff, if◌then◌else◌, lookup,
  lookup-insert_self, lookup-remove, ltb, arith, ◌≤◌, ◌<◌, ◌∷◌, ◌++◌, Text, Option, Bool-cases,
  Option-cases, inl, inr, ◌⊎◌, subst, sym, ltb→lt,
}
use modular_rust_reverse_pro.Http.Request.{HttpRequest}
use modular_rust_reverse_pro.Http.Request
use modular_rust_reverse_pro.Http.Response
use modular_rust_reverse_pro.Http.Response.{HttpResponse}
use modular_rust_reverse_pro.Sync.{lock}
use modular_rust_reverse_pro.Modules.Cache.{
  Cache, Entry, second, handle, found, on_response, make_room, is_storable, not_modified,
  marked_hit, tag_matches,
}

-- The entry that a storable response leaves.
stored_entry :
    (now : ℕ) (q : HttpRequest) (resp : HttpResponse) (c : Cache)
    → is_storable resp ≡ true
    → lookup q.path (on_response now q resp c).cache.inner
      ≡ some (record { resp = resp; exp = now + c.ttl * second })
unfolding on_response
stored_entry now q resp c h =
    rw (h, on_response) (lookup-insert_self q.path _ (make_room c.max (lock (λ _. []) c.cache)))

found_entry :
    (now : ℕ) (r : HttpRequest) (c : Cache) (e : Entry)
    → r.method ≡ lit "GET"
    → lookup r.path c.cache.inner ≡ some e
    → ((handle now r c).1 ≡ (
        if ltb now e.exp
        then some (if tag_matches r e.resp then not_modified else marked_hit e.resp)
        else none))
      × (lookup r.path (handle now r c).0.cache.inner ≡ (if ltb now e.exp then some e else none))
unfolding handle found
found_entry now r c e get h = ground (
  arith,
  text_beq_iff r.method (lit "GET"),
  lookup-remove r.path r.path c.cache.inner,
  text_beq_iff r.path r.path,
)

-- The request names the tag that the response has.
abbrev pub Agrees : HttpRequest → HttpResponse → Type 0
Agrees r resp =
    (tag : Text) × (Request.get_header r (lit "If-None-Match") ≡ some tag)
    × (Response.get_header resp (lit "ETag") ≡ some tag)

Agrees-tag_matches :
    (r : HttpRequest) (resp : HttpResponse) → Agrees r resp → tag_matches r resp ≡ true
unfolding tag_matches
Agrees-tag_matches r resp (tag, a, b) = rw (a, b, tag_matches) ((text_beq_iff tag tag).1 refl)

tag_matches-Agrees :
    (r : HttpRequest) (resp : HttpResponse) → tag_matches r resp ≡ true → Agrees r resp
unfolding tag_matches
tag_matches-Agrees r resp h = elim (Option-cases (Request.get_header r (lit "If-None-Match"))) [
  | inl a ↦ absurd (cc (rw (a, tag_matches) at h))
  | inr (tag, a) ↦ elim (Option-cases (Response.get_header resp (lit "ETag"))) [
    | inl b ↦ absurd (cc (rw (a, b, tag_matches) at h))
    | inr (etag, b) ↦
        let same = (text_beq_iff tag etag).0 (rw (a, b, tag_matches) at h) in (tag, a, rw same b)
  ]
]

-- What a stored response gives to a request: status 304 without a body where the tags agree, and else the
-- response with one more header.
abbrev pub IsHit : HttpRequest → HttpResponse → Option HttpResponse → Type 0
IsHit r resp o =
    (Agrees r resp
      × (o
          ≡ some (record {
            version = lit "HTTP/1.1";
            status_code = 304;
            status_text = lit "Not Modified";
            headers = (lit "X-Cache", lit "HIT") ∷ [];
            body = [];
          })))
    ⊎ ((¬ (Agrees r resp))
        × (o
            ≡ some (record {
              version = resp.version;
              status_code = resp.status_code;
              status_text = resp.status_text;
              headers = resp.headers ++ (lit "X-Cache", lit "HIT") ∷ [];
              body = resp.body;
            })))

stored-IsHit :
    (r : HttpRequest) (resp : HttpResponse)
    → IsHit r resp (some (if tag_matches r resp then not_modified else marked_hit resp))
unfolding not_modified marked_hit
stored-IsHit r resp = elim (Bool-cases (tag_matches r resp)) [
  | inl same ↦ inl (tag_matches-Agrees r resp same, rw same refl)
  | inr other ↦ inr (λ agrees. absurd (cc (Agrees-tag_matches r resp agrees, other)), rw other refl)
]

-- A response with status 200 that has no header `X-Cache` is stored for the path of its request at time `now`. If nothing
-- else happens to the cache, then a GET request for this path that comes less than `ttl_seconds` later is
-- answered from the cache: with status 304 if the tags agree, and else with the stored response and the header
-- `X-Cache: HIT`, and the entry stays. One that comes later is not answered, and the entry goes. The
-- method of the request whose response was stored is free.
pub stored_answers :
    (now later : ℕ) (q r : HttpRequest) (resp : HttpResponse) (c : Cache)
    → resp.status_code ≡ 200
    → Response.get_header resp (lit "X-Cache") ≡ none
    → r.method ≡ lit "GET"
    → r.path ≡ q.path
    → let c' = on_response now q resp c in
      let entry : Entry = record { resp = resp; exp = now + c.ttl * second } in
      ((later < now + c.ttl * second)
        × IsHit r resp (handle later r c').1
        × (lookup r.path (handle later r c').0.cache.inner ≡ some entry))
      ⊎ ((now + c.ttl * second ≤ later)
          × ((handle later r c').1 ≡ none)
          × (lookup r.path (handle later r c').0.cache.inner ≡ none))
unfolding is_storable
stored_answers now later q r resp c ok own get same =
    let storable : is_storable resp ≡ true = rw (own, ok, is_storable) refl in
    let entry : Entry = record { resp = resp; exp = now + c.ttl * second } in
    let c' = on_response now q resp c in
    let at : lookup r.path c'.cache.inner ≡ some entry =
      rw same (stored_entry now q resp c storable) in
    let (answer, kept) = found_entry later r c' entry get at in
    elim (Bool-cases (ltb later (now + c.ttl * second))) [
      | inl fresh ↦ inl (
        ltb→lt later (now + c.ttl * second) fresh,
        subst (IsHit r resp) (sym (rw fresh at answer)) (stored-IsHit r resp),
        rw fresh at kept,
      )
      | inr stale ↦ inr (ground arith, rw stale at answer, rw stale at kept)
    ]

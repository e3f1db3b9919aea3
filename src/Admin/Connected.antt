-- ===== src/Admin/Connected.antt =====
-- The map of the connections of utils/redisutil/connections.go.
use rediscluster_operator.Base.{
  ◌≡◌, refl, ap, ◌∙◌, true, ◌||◌, ◌&&◌, not, List, [], ◌∷◌, ◌++◌, Text, same, same_iff, keep,
  if◌then◌else◌, arith, Bool-cases, inl, inr,
}
use rediscluster_operator.Admin.{
  Redis, Cnx, Fault, refused, has_client, put_client, connect, update, remove, reconnect, add_all,
  reset, replace_all, handle_error, validate_resp,
}

has_client-snoc :
    (a b : Text) (cs : List Text) → has_client a (cs ++ b ∷ []) ≡ (has_client a cs || same b a)
unfolding has_client
has_client-snoc a b [] = ground arith
has_client-snoc a b (c ∷ cs) = ground (arith, has_client-snoc a b cs)

has_client-put_client :
    (a b : Text) (cs : List Text) → has_client a (put_client b cs) ≡ (has_client a cs || same b a)
unfolding put_client
has_client-put_client a b cs = ground (arith, has_client-snoc a b cs, same_iff b a)

has_client-keep :
    (a b : Text) (cs : List Text)
    → has_client a (keep (λ c. not (same c b)) cs) ≡ (has_client a cs && not (same a b))
unfolding has_client
has_client-keep a b [] = refl
has_client-keep a b (c ∷ cs) =
    ground (arith, has_client-keep a b cs, same_iff c b, same_iff c a, same_iff a b)

module _ {S : Type 0} (redis : Redis S) where
  has_client-update :
      (addr a : Text) (cnx : Cnx S)
      → has_client a (update redis addr cnx).0.clients
        ≡ (has_client a cnx.clients || (same addr a && redis.pings cnx.world addr))
  unfolding update connect
  has_client-update addr a cnx = elim (Bool-cases (redis.pings cnx.world addr)) [
    | inl e ↦ rw (update, connect, e) (ground (arith, has_client-put_client a addr cnx.clients))
    | inr e ↦ rw (update, connect, e) (ground arith)
  ]

  -- After a network error at an address, ValidateResp returns an error and there is a connection to
  -- that address exactly when it answers a ping; the other connections stay.
  validate_resp-reconnects :
      (addr a : Text) (e : Fault) (cnx : Cnx S)
      → e.network ≡ true
      → has_client a (validate_resp redis addr (refused e) cnx).0.clients
        ≡ (if same addr a then redis.pings cnx.world addr else has_client a cnx.clients)
  unfolding validate_resp handle_error reconnect remove
  validate_resp-reconnects addr a e cnx n = ground (
    arith,
    has_client-update addr a (remove redis addr cnx),
    has_client-keep a addr cnx.clients,
    same_iff addr a,
    same_iff a addr,
  )

  update_world : (addr : Text) (cnx : Cnx S) → (update redis addr cnx).0.world ≡ cnx.world
  unfolding update connect
  update_world addr cnx = elim (Bool-cases (redis.pings cnx.world addr)) [
    | inl e ↦ rw (update, connect, e) refl
    | inr e ↦ rw (update, connect, e) refl
  ]

  has_client-add_all :
      (addrs : List Text) (a : Text) (cnx : Cnx S)
      → has_client a (add_all redis addrs cnx).clients
        ≡ (has_client a cnx.clients || (has_client a addrs && redis.pings cnx.world a))
  unfolding add_all has_client
  has_client-add_all [] a cnx = ground arith
  has_client-add_all (addr ∷ addrs) a cnx =
      has_client-add_all addrs a (update redis addr cnx).0
      ∙ ground (
        arith,
        has_client-update addr a cnx,
        ap (λ w. redis.pings w a) (update_world addr cnx),
        same_iff addr a,
      )

  -- After ReplaceAll there is a connection to an address exactly when the address is one of those
  -- given and answers a ping.
  replace_all_lem :
      (addrs : List Text) (a : Text) (cnx : Cnx S)
      → has_client a (replace_all redis addrs cnx).clients
        ≡ (has_client a addrs && redis.pings cnx.world a)
  unfolding replace_all reset has_client
  replace_all_lem addrs a cnx = has_client-add_all addrs a (reset redis cnx) ∙ ground arith

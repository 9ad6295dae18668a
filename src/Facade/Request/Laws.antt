-- ===== src/Facade/Request/Laws.antt =====
-- bgp.go and internal/peer/send.go: what the sender's checks find in a request of a script.
use xk6_bgp.Base.{
  bind-ok, ok-inj, ℕ, ◌+◌, Bool, true, false, not, ◌&&◌, some, List, [], ◌∷◌, lookup, string_eq,
  length, ◌≡◌, refl, subst, arith, ok, guard_not, seq-ok, All, is, ◌>>◌,
}
use xk6_bgp.Packet.Route.{Family, Route}
use xk6_bgp.Peer.Fsm.{Fsm, same_state, established}
use xk6_bgp.Peer.Send.{
  session_not_ready, extended_messages_not_negotiated, validate_route_family, validate_path_ids,
  is_nil, check_request,
}
use xk6_bgp.Observed.State.{failure_cause}
use xk6_bgp.Facade.Runtime.{
  Runtime, Imports, missing_argument, missing, family_not_configured, not_an_object, object_of,
  opt_string, is_positive,
}
use xk6_bgp.Facade.Runtime.Laws.{or_error-ok, read_array_exact}
use xk6_bgp.Facade.Routes.{parse_route, parse_routes_array}
use xk6_bgp.Facade.Routes.Yield.{parse_routes_array_family}
use xk6_bgp.Facade.Request.{
  AdvertiseRequest, Families, configured, attrs_unless, parse_advertise_arg,
}

module _ {N : Type 0} where
  All-validate :
      (fam : Family) (i : ℕ) (rs : List (Route N))
      → All (λ r. r.family ≡ fam) rs
      → validate_route_family fam i rs ≡ ok tt
  unfolding validate_route_family
  All-validate fam i [] a = refl
  All-validate fam i (r ∷ rs) (e, a) = ground (arith, All-validate fam (i + 1) rs a)

  positive_list : (rs : List (Route N)) → is_positive (length rs) ≡ true → is_nil rs ≡ false
  positive_list [] h = ground arith
  positive_list (r ∷ rs) h = refl

module _ {V O : Type 0} (js : Runtime V O) {Rd Esi N : Type 0} (im : Imports Rd Esi N) where
  -- The family is one that the Peer was configured with, under the name in the argument, and the
  -- list of routes is what the array in it holds.
  pub record Origin (fams : Families) (v : V) (q : AdvertiseRequest N) : Type 0 where
    pub object : O
    pub is_object : js.to_object v ≡ some object
    pub is_configured : lookup (opt_string js object "family") fams ≡ some q.family
    pub is_parsed : parse_routes_array js im q.family (js.get object "routes") ≡ ok q.routes

  pub parse_advertise_arg-Origin :
      (fams : Families) (v : V) (w : Bool) (q : AdvertiseRequest N)
      → parse_advertise_arg js im fams v w ≡ ok q
      → Origin fams v q
  unfolding parse_advertise_arg
  parse_advertise_arg-Origin fams v w q h =
      let (g, h1) = seq-ok (guard_not (js.is_nullish v) missing_argument) _ q h in
      let (o, (eo, h2)) = bind-ok (object_of js not_an_object v) _ q h1 in
      let name = opt_string js o "family" in
      let (g2, h3) = seq-ok (guard_not (is name "") (missing "family")) _ q h2 in
      let (fam, (ef, h4)) = bind-ok (configured fams name) _ q h3 in
      let (attrs, (ea, h5)) = bind-ok (attrs_unless js im w o) _ q h4 in
      let (routes, (er, h6)) = bind-ok (parse_routes_array js im fam (js.get o "routes")) _ q h5 in
      subst (Origin fams v) (ok-inj _ q h6) (record {
        object = o;
        is_object = or_error-ok not_an_object (js.to_object v) o eo;
        is_configured = or_error-ok (family_not_configured name) (lookup name fams) fam ef;
        is_parsed = er;
      })

  parsed_routes :
      (fam : Family) (v : V) (rs : List (Route N))
      → parse_routes_array js im fam v ≡ ok rs
      → is_nil rs ≡ false
  unfolding parse_routes_array
  parsed_routes fam v rs h =
      let (g, h1) = seq-ok (guard_not (js.is_nullish v) (missing "routes")) _ rs h in
      let r = (read_array_exact js (parse_route js im fam) v rs).0 h1 in
      positive_list rs r.is_nonempty

  -- A request that was read from a script's argument names a configured family, and of the checks
  -- that Advertise and Withdraw make, it can only fail those that depend on the session: its list
  -- of routes is not empty, and every route is of the request's family.
  pub parse_advertise_arg-check_request :
      (fams : Families) (v : V) (w : Bool) (q : AdvertiseRequest N) (f : Fsm)
      → parse_advertise_arg js im fams v w ≡ ok q
      → Origin fams v q
        × (check_request f q.family q.routes q.encoding ≡ (
            guard_not
              (not (same_state f.state established))
              (session_not_ready (failure_cause f.observed))
            >> (guard_not
                  (q.encoding.use_extended_messages && not f.session.extended_messages)
                  extended_messages_not_negotiated
                >> validate_path_ids f.session q.family q.routes)))
  unfolding check_request
  parse_advertise_arg-check_request fams v w q f h =
      let origin = parse_advertise_arg-Origin fams v w q h in
      let full : is_nil q.routes ≡ false =
        parsed_routes q.family (js.get origin.object "routes") q.routes origin.is_parsed in
      let same : validate_route_family q.family 0 q.routes ≡ ok tt =
        All-validate q.family 0 q.routes (
          parse_routes_array_family js im q.family (js.get origin.object "routes") q.routes
            origin.is_parsed) in
      (origin, rw (full, same) refl)

-- ===== src/Proxy/Upstream/Requests.antt =====
-- internal/proxy/proxy.go: what leaves the gateway for an upstream.
use llm_security_audit_gatew.Base.{
  ℕ, suc, ◌≡◌, refl, sym, ap, ◌∙◌, subst, String, ℤ, List, [], ◌∷◌, ◌++◌, Option, none, some, Bool,
  true, false, not, ◌||◌, arith, str_eq, eq_iff, concat, starts_with, lookup, insert, lookup-insert,
  erase, if◌then◌else◌, Bytes, Bool-cases, inl, inr, length, leb,
}
use llm_security_audit_gatew.Base.Result.{Result, ok, err}
use llm_security_audit_gatew.Stream.Events.{Event}
use llm_security_audit_gatew.Stream.Copy.{World}
use llm_security_audit_gatew.Proxy.Upstream.{
  Headers, Upstream, Request, Body, Response, Libraries, is_forwarded, values_of, add_all,
  copy_headers, request_to, read_limited, whole, is_gzip, is_stream, relay, unzipped, on_response,
  on_request, on_path, on_target, do_upstream,
}

module _ (l : Libraries) where
  add_all-lookup :
      (name key : String) (values : List String) (dst : Headers)
      → str_eq (l.canonical key) name ≡ false
      → lookup name (add_all l key values dst) ≡ lookup name dst
  unfolding add_all
  add_all-lookup name key [] dst other = refl
  add_all-lookup name key (value ∷ values) dst other =
      let v = values_of (lookup (l.canonical key) dst) ++ (value ∷ []) in
      add_all-lookup name key values _ other
      ∙ lookup-insert (l.canonical key) name v dst
      ∙ ap (λ (b : Bool). if b then some v else lookup name dst) other

  -- A name that is not on the list is no header of the copy.
  copy_headers-lookup :
      (name : String) (dst src : Headers)
      → is_forwarded name ≡ false
      → lookup name (copy_headers l dst src) ≡ lookup name dst
  unfolding copy_headers
  copy_headers-lookup name dst [] strange = refl
  copy_headers-lookup name dst ((key, values) ∷ src) strange =
      copy_headers-lookup name
        (if is_forwarded (l.canonical key) then add_all l key values dst else dst) src strange
      ∙ step (is_forwarded (l.canonical key)) refl
    where
      differ :
          is_forwarded (l.canonical key) ≡ true
          → str_eq (l.canonical key) name ≡ true
          → true ≡ false
      differ on same = sym on ∙ ap is_forwarded ((eq_iff (l.canonical key) name).0 same) ∙ strange

      no_both : true ≡ false → ⊥
      no_both e = cc

      step :
          (b : Bool)
          → is_forwarded (l.canonical key) ≡ b
          → lookup name (if b then add_all l key values dst else dst) ≡ lookup name dst
      step false e = refl
      step true e = elim (Bool-cases (str_eq (l.canonical key) name)) [
        | inl same ↦ absurd (no_both (differ e same))
        | inr other ↦ add_all-lookup name key values dst other
      ]

  pub record Confined (upstream : Upstream) (request : Request) : Type 0 where
    pub boundary : starts_with request.path "/v1/" ≡ true
    pub authorization : lookup "Authorization" request.headers ≡ (
        if str_eq upstream.api_key ""
        then none
        else some (concat ("Bearer " ∷ upstream.api_key ∷ []) ∷ []))
    pub others :
        (name : String)
        → is_forwarded name ≡ false
        → str_eq "Authorization" name ≡ false
        → lookup name request.headers ≡ none

  -- Of the request that went out, if any.
  abbrev pub EnabledOr : Upstream → Option Request → Type 0
  EnabledOr upstream none = Unit
  EnabledOr upstream (some request) = (upstream.enabled ≡ true) × Confined upstream request

  request_to-Confined :
      (upstream : Upstream) (method path query : String) (body : Bytes) (headers : Headers)
      → starts_with path "/v1/" ≡ true
      → Confined upstream (request_to l upstream method path query body headers)
  request_to-Confined upstream method path query body headers inside = record {
    boundary = inside;
    authorization = authorized (str_eq upstream.api_key "");
    others = λ name strange other. strangers (str_eq upstream.api_key "") name strange other;
  }
    where
      bearer : List String
      bearer = concat ("Bearer " ∷ upstream.api_key ∷ []) ∷ []

      lookup-nil : (name : String) → lookup {V = List String} name [] ≡ none
      lookup-nil name = unfold lookup in refl

      authorized :
          (no_key : Bool)
          → lookup "Authorization" (
              if no_key
              then copy_headers l [] headers
              else insert "Authorization" bearer (copy_headers l [] headers))
            ≡ (if no_key then none else some bearer)
      authorized true =
          copy_headers-lookup "Authorization" [] headers refl ∙ lookup-nil "Authorization"
      authorized false =
          lookup-insert "Authorization" "Authorization" bearer (copy_headers l [] headers)

      strangers :
          (no_key : Bool) (name : String)
          → is_forwarded name ≡ false
          → str_eq "Authorization" name ≡ false
          → lookup name (
              if no_key
              then copy_headers l [] headers
              else insert "Authorization" bearer (copy_headers l [] headers))
            ≡ none
      strangers true name strange other =
          copy_headers-lookup name [] headers strange ∙ lookup-nil name
      strangers false name strange other =
          lookup-insert "Authorization" name bearer (copy_headers l [] headers)
          ∙ ap (λ (b : Bool). if b then some bearer else lookup name (copy_headers l [] headers))
              other
          ∙ copy_headers-lookup name [] headers strange
          ∙ lookup-nil name

  module _ {S : Type 0} (world : World S) (parse : Bytes → Event) (start : S) where
    -- A call that got as far as the request has sent this one.
    on_response-request :
        (max_event : ℤ) (max : ℕ) (inspect : Bytes → Bool) (write : Bytes → Option String)
        (request : Request) (r : Result String Response)
        → (on_response l world parse start max_event max inspect write request r).request
          ≡ some request
    on_response-request max_event max inspect write request (err e) = refl
    on_response-request max_event max inspect write request (ok response) =
        zipped (is_gzip l response) (l.gunzip response.body)
      where
        wholly :
            (status : ℕ) (headers : Headers) (r : Result String Bytes)
            → (whole l max inspect write request status headers r).request ≡ some request
        wholly status headers (err e) = refl
        wholly status headers (ok content) = elim (Bool-cases (leb (suc max) (length content))) [
          | inl large ↦ rw large refl
          | inr fits ↦ elim (Bool-cases (inspect content)) [
            | inl passed ↦ rw (fits, passed) refl
            | inr refused ↦ rw (fits, refused) refl
          ]
        ]

        relayed :
            (headers : Headers) (body : Body)
            → (relay l world parse start max_event max inspect write request response.status headers
                body).request
              ≡ some request
        relayed headers body = elim (Bool-cases (is_stream l headers)) [
          | inl streams ↦ rw streams refl
          | inr plain ↦ rw plain (wholly response.status headers (read_limited l (suc max) body))
        ]

        zipped :
            (b : Bool) (r : Result String Body)
            → (if b
                then unzipped l world parse start max_event max inspect write request response r
                else relay l world parse start max_event max inspect write request response.status
                    response.headers response.body).request
              ≡ some request
        zipped false r = relayed response.headers response.body
        zipped true (err e) = refl
        zipped true (ok body) = relayed (erase "Content-Encoding" response.headers) body

    -- A request goes out only for an enabled upstream and under `/v1/`; it authenticates with the
    -- upstream's key, or not at all, and no header of the client goes with it whose canonical name
    -- is not on the list of the forwarded ones.
    pub do_upstream-Confined :
        (max_event : ℤ) (max : ℕ) (inspect : Bytes → Bool) (write : Bytes → Option String)
        (upstream : Upstream) (method path query : String) (body : Bytes) (headers : Headers)
        → EnabledOr upstream
            (do_upstream l world parse start max_event max inspect write upstream method path query
              body headers).request
    unfolding do_upstream
    do_upstream-Confined max_event max inspect write upstream method path query body headers =
        elim (Bool-cases (not upstream.enabled || str_eq (l.trim_space upstream.base_url) "")) [
          | inl off ↦ rw off tt
          | inr on ↦
              rw on (on_url (enabled on) (l.join_path (l.trim_slashes upstream.base_url) path))
        ]
      where
        enabled :
            (not upstream.enabled || str_eq (l.trim_space upstream.base_url) "") ≡ false
            → upstream.enabled ≡ true
        enabled h = ground arith

        asked :
            (path' : String) (refused : Option String)
            → upstream.enabled ≡ true
            → starts_with path' "/v1/" ≡ true
            → EnabledOr upstream
                (on_request l world parse start max_event max inspect write
                  (request_to l upstream method path' query body headers)
                  refused).request
        asked path' (some cause) e inside = tt
        asked path' none e inside =
            let request = request_to l upstream method path' query body headers in
            subst (EnabledOr upstream)
              (sym (on_response-request max_event max inspect write request (l.send request)))
              (e, request_to-Confined upstream method path' query body headers inside)

        on_parsed :
            upstream.enabled ≡ true
            → (r : Result String String)
            → EnabledOr upstream
                (on_path l world parse start max_event max inspect write upstream method query body
                  headers r).request
        on_parsed e (err cause) = tt
        on_parsed e (ok path) =
            let path' = l.clean (concat ("/" ∷ path ∷ [])) in
            elim (Bool-cases (starts_with path' "/v1/")) [
              | inl inside ↦ rw inside (asked path' (l.new_request method path' query) e inside)
              | inr outside ↦ rw outside tt
            ]

        on_url :
            upstream.enabled ≡ true
            → (r : Result String String)
            → EnabledOr upstream
                (on_target l world parse start max_event max inspect write upstream method query
                  body headers r).request
        on_url e (err cause) = tt
        on_url e (ok target) = on_parsed e (l.parsed_path target)

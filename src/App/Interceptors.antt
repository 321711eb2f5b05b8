-- ===== src/App/Interceptors.antt =====
-- The interceptors of internal/app/interceptor.go, and `GetRequestIdOrEmptyString` of
-- internal/util/util.go. A context is what it holds under `MetadataCtxKey`.
use goipay.Base.{
  ◌≡◌, ◌≢◌, refl, String, Bool, Option, none, some, List, [], ◌∷◌, arith, str_eq, eq_iff,
  if◌then◌else◌, append_str,
}
use goipay.Error.{Result, is_ok}

-- The request's id, where the context holds `CustomMetadata`.
abbrev pub Context : Type 0
Context = Option String

-- `GetRequestIdOrEmptyString`
unfoldable pub get_request_id_or_empty_string : Context → String
get_request_id_or_empty_string none = ""
get_request_id_or_empty_string (some id) = id

-- `getReqIdOrCreate`: the first value that came with the request, or what `uuid.NewString()` gives.
abbrev pub get_req_id_or_create : String → List String → String
get_req_id_or_create new_id [] = new_id
get_req_id_or_create new_id (id ∷ _) = if str_eq id "" then new_id else id

-- A line of the log: the id, the text, and the status, where it has one.
pub record LogLine : Type 0 where
  pub request_id : String
  pub text : String
  pub succeeded : Option Bool

module _ {A : Type 0} where
  -- `MetadataInterceptor.Intercepte`, by the values that came under `RequestIdKey`
  unfoldable pub metadata_intercept : String → Option (List String) → Context → (Context → A) → A
  metadata_intercept new_id none ctx handler = handler ctx
  metadata_intercept new_id (some ids) ctx handler =
      handler (some (get_req_id_or_create new_id ids))

  -- `RequestLoggingInterceptor.Intercepte`: the answer, and what is logged.
  unfoldable pub logging_intercept :
      String → Context → (Context → Result A) → Result A × List LogLine
  unfolding get_request_id_or_empty_string
  logging_intercept method ctx handler =
      let res = handler ctx in
      let id = get_request_id_or_empty_string ctx in
      (
        res,
        record { request_id = id; text = append_str "PRE " method; succeeded = none }
            ∷ record {
              request_id = id;
              text = append_str "POST " method;
              succeeded = some (is_ok res);
            }
            ∷ [],
      )

-- The id under which a request is logged.
abbrev pub id_of : String → Option (List String) → Context
id_of new_id none = none
id_of new_id (some ids) = some (get_req_id_or_create new_id ids)

abbrev pub logged_id : Context → String
logged_id none = ""
logged_id (some id) = id

module _ {A : Type 0} where
  -- `grpc.ChainUnaryInterceptor` of the two, in the order of `getGrpcServerOptions`.
  unfoldable pub intercept :
      String → String → Option (List String) → (Context → Result A) → Result A × List LogLine
  unfolding metadata_intercept logging_intercept
  intercept new_id method incoming handler =
      metadata_intercept new_id incoming none (λ ctx. logging_intercept method ctx handler)

  -- The answer of a call is the handler's, in the context with the request's id; it is logged in two
  -- lines under that id, the second with whether it succeeded; and every request that comes with
  -- metadata has an id that is not empty, since a new one is not.
  pub intercept_lem :
      (new_id method : String) (incoming : Option (List String)) (handler : Context → Result A)
      → new_id ≢ ""
      → let ctx = id_of new_id incoming in
        (intercept new_id method incoming handler ≡ (
          handler ctx,
          record { request_id = logged_id ctx; text = append_str "PRE " method; succeeded = none }
              ∷ record {
                request_id = logged_id ctx;
                text = append_str "POST " method;
                succeeded = some (is_ok (handler ctx));
              }
              ∷ [],
        ))
        × ((ids : List String) → incoming ≡ some ids → logged_id ctx ≢ "")
  unfolding intercept
  intercept_lem new_id method none handler nonempty = (refl, λ ids e. cc)
  intercept_lem new_id method (some ids) handler nonempty = (refl, λ _ _. nonempty_id ids)
    where
      nonempty_id : (ids : List String) → get_req_id_or_create new_id ids ≢ ""
      nonempty_id [] = nonempty
      nonempty_id (id ∷ _) = λ e. ground (arith, eq_iff id "", e, nonempty)

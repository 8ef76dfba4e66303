-- ===== src/Configure/Answers.antt =====
-- What a request of devscanclient/lib/configureclient.cpp returns.
use devscan.Base.{
  ℕ, ◌≡◌, refl, ap, sym, ◌∙◌, Bool, true, false, List, [], ◌∷◌, ◌++◌, append-nil, All,
  if◌then◌else◌, inl, inr, ◌⊎◌,
}
use mathlib.Core.Path.{subst}
use devscan.Base.Text.{Text}
use devscan.Result.{Result, ok, throw, ◌>>=◌}
use devscan.Json.{JsonLibrary}
use devscan.Configure.Client.{
  Surroundings, ConfigureClient, answers, ignores, recv_cb, handle_batch, wait_for_answer,
  send_request, with_new_id, execute_request, with_new_id,
}

module _ (json : JsonLibrary) where
  abbrev pub IsIgnored : Text → Text → Type 0
  IsIgnored id telegram = recv_cb json id telegram ≡ ok ignores

  -- No exception of jsoncpp.
  abbrev pub IsDecided : Text → Text → Type 0
  IsDecided id telegram =
      (recv_cb json id telegram ≡ ok answers) ⊎ (recv_cb json id telegram ≡ ok ignores)

  handle_batch-taken :
      (id response telegram : Text) (stopped : Bool) (rest : List Text)
      → recv_cb json id telegram ≡ ok answers
      → handle_batch json id response stopped (telegram ∷ rest)
        ≡ handle_batch json id telegram true rest
  unfolding handle_batch
  handle_batch-taken id response telegram stopped rest e = rw (handle_batch, e)

  handle_batch-kept :
      (id response telegram : Text) (stopped : Bool) (rest : List Text)
      → recv_cb json id telegram ≡ ok ignores
      → handle_batch json id response stopped (telegram ∷ rest)
        ≡ handle_batch json id response stopped rest
  unfolding handle_batch
  handle_batch-kept id response telegram stopped rest e = rw (handle_batch, e)

  handle_batch-ignored :
      (id response : Text) (stopped : Bool) (batch : List Text)
      → All (IsIgnored id) batch
      → handle_batch json id response stopped batch ≡ ok (response, stopped)
  unfolding handle_batch
  handle_batch-ignored id response stopped [] h = refl
  handle_batch-ignored id response stopped (telegram ∷ rest) h =
      handle_batch-kept id response telegram stopped rest h.0
      ∙ handle_batch-ignored id response stopped rest h.1

  handle_batch-answer :
      (id response answer : Text) (stopped : Bool) (earlier later : List Text)
      → All (IsDecided id) earlier
      → recv_cb json id answer ≡ ok answers
      → All (IsIgnored id) later
      → handle_batch json id response stopped (earlier ++ answer ∷ later) ≡ ok (answer, true)
  handle_batch-answer id response answer stopped [] later d a h =
      handle_batch-taken id response answer stopped later a
      ∙ handle_batch-ignored id answer true later h
  handle_batch-answer id response answer stopped (telegram ∷ earlier) later d a h = elim d.0 [
    | inl taken ↦
        handle_batch-taken id response telegram stopped (earlier ++ answer ∷ later) taken
        ∙ handle_batch-answer id telegram answer true earlier later d.1 a h
    | inr kept ↦
        handle_batch-kept id response telegram stopped (earlier ++ answer ∷ later) kept
        ∙ handle_batch-answer id response answer stopped earlier later d.1 a h
  ]

  wait-next :
      (id response : Text) (batch : List Text) (rest : List (List Text)) (answer : Text)
      (stopped : Bool)
      → handle_batch json id response false batch ≡ ok (answer, stopped)
      → wait_for_answer json id response (batch ∷ rest)
        ≡ (if stopped then ok answer else wait_for_answer json id answer rest)
  unfolding wait_for_answer
  wait-next id response batch rest answer true e = rw (wait_for_answer, e)
  wait-next id response batch rest answer false e = rw (wait_for_answer, e)

  wait_for_answer-ignored :
      (id response : Text) (batches rest : List (List Text))
      → All (All (IsIgnored id)) batches
      → wait_for_answer json id response (batches ++ rest) ≡ wait_for_answer json id response rest
  wait_for_answer-ignored id response [] rest h = refl
  wait_for_answer-ignored id response (batch ∷ batches) rest h =
      wait-next id response batch (batches ++ rest) response false
        (handle_batch-ignored id response false batch h.0)
      ∙ wait_for_answer-ignored id response batches rest h.1

  module _ (env : Surroundings) where
    -- The batches that arrive for a request.
    abbrev pub arrived : Text → ℕ → Text → ConfigureClient env → List (List Text) × env.State
    arrived interface_ip ttl message client =
        env.arrivals (send_request json env interface_ip ttl message (env.update client.state))

    execute_request-waited :
        (interface_ip : Text) (ttl : ℕ) (message : Text) (client : ConfigureClient env)
        (batches : List (List Text)) (response : Text)
        → (arrived interface_ip ttl message client).0 ≡ batches
        → wait_for_answer json client.id client.response batches ≡ ok response
        → execute_request json env interface_ip ttl message client
          ≡ ok (
            response,
            record client {
              response = response;
              state = (arrived interface_ip ttl message client).1;
            },
          )
    unfolding execute_request
    execute_request-waited interface_ip ttl message client batches response e waited =
        ap
          (λ (r : Result Text). r >>= λ response. ok (
            response,
            record client {
              response = response;
              state = (arrived interface_ip ttl message client).1;
            },
          ))
          (ap (wait_for_answer json client.id client.response) e ∙ waited)

    -- The response to a request is the last telegram that answers it in the first batch that holds an
    -- answer: the batches before hold none, and neither what follows in the batch nor the batches behind
    -- it matter. It is kept in the object.
    pub execute_request-answer :
        (interface_ip : Text) (ttl : ℕ) (message : Text) (client : ConfigureClient env)
        (before behind : List (List Text)) (earlier later : List Text) (answer : Text)
        → (arrived interface_ip ttl message client).0
          ≡ before ++ (earlier ++ answer ∷ later) ∷ behind
        → All (All (IsIgnored client.id)) before
        → All (IsDecided client.id) earlier
        → recv_cb json client.id answer ≡ ok answers
        → All (IsIgnored client.id) later
        → execute_request json env interface_ip ttl message client
          ≡ ok (
            answer,
            record client {
              response = answer;
              state = (arrived interface_ip ttl message client).1;
            },
          )
    execute_request-answer interface_ip ttl message client before behind earlier later answer e
          none_before decided a none_later =
        execute_request-waited interface_ip ttl message client
          (before ++ (earlier ++ answer ∷ later) ∷ behind) answer e
          (wait_for_answer-ignored client.id client.response before
              ((earlier ++ answer ∷ later) ∷ behind) none_before
            ∙ wait-next client.id client.response (earlier ++ answer ∷ later) behind answer true (
                handle_batch-answer client.id client.response answer false earlier later decided a
                  none_later))

    abbrev finish_request :
        Text → ℕ → Text → ConfigureClient env → Result Text → Result (Text × ConfigureClient env)
    finish_request ip ttl message client r = r >>= λ response.
        ok (
          response,
          record client { response = response; state = (arrived ip ttl message client).1 },
        )

    -- Whether a call returned the response that it left in the object.
    abbrev Leaves : Result (Text × ConfigureClient env) → Type 0
    Leaves (ok (text, client)) = client.response ≡ text
    Leaves (throw e) = Unit {0}

    finish_request-Leaves :
        (ip : Text) (ttl : ℕ) (message : Text) (client : ConfigureClient env) (r : Result Text)
        → Leaves (finish_request ip ttl message client r)
    finish_request-Leaves ip ttl message client (ok text) = refl
    finish_request-Leaves ip ttl message client (throw e) = tt

    response-execute_request :
        (ip : Text) (ttl : ℕ) (message answer : Text) (client next : ConfigureClient env)
        → execute_request json env ip ttl message client ≡ ok (answer, next)
        → next.response ≡ answer
    unfolding execute_request
    response-execute_request ip ttl message answer client next e = subst Leaves e (
        finish_request-Leaves ip ttl message client
          (wait_for_answer json client.id client.response (arrived ip ttl message client).0))

    -- A request that nobody answers, after one that was answered: the response to the earlier request
    -- is returned for it.
    pub execute_request-stale :
        (ip ip' : Text) (ttl ttl' : ℕ) (message message' answer : Text)
        (client next : ConfigureClient env)
        → execute_request json env ip ttl message client ≡ ok (answer, next)
        → All
            (All (IsIgnored (with_new_id json env next).id))
            (arrived ip' ttl' message' (with_new_id json env next)).0
        → (after : ConfigureClient env) × (execute_request json env ip' ttl' message'
              (with_new_id json env next)
            ≡ ok (answer, after))
    unfolding wait_for_answer
    execute_request-stale ip ip' ttl ttl' message message' answer client next first ignored =
        let second = with_new_id json env next in
        let batches = (arrived ip' ttl' message' second).0 in
        let kept : next.response ≡ answer =
          response-execute_request ip ttl message answer client next first in
        let waited : wait_for_answer json second.id second.response batches ≡ ok answer =
          ap (wait_for_answer json second.id second.response) (sym (append-nil batches))
          ∙ wait_for_answer-ignored second.id second.response batches [] ignored
          ∙ ap ok kept in
        (
          record second { response = answer; state = (arrived ip' ttl' message' second).1 },
          execute_request-waited ip' ttl' message' second batches answer refl waited,
        )

-- ===== src/Configure/Client.antt =====
-- The object of devscanclient/lib/configureclient.cpp. What the event loop hands to `recvCb` while a
-- request waits are the datagrams that arrive within TIMETOWAITFORANSWERS, in batches: those of a batch
-- are all handed over before the loop looks for a stop event. The sending of a request and `createId`
-- are parameters.
use devscan.Base.{ℕ, Bool, true, false, Option, none, some, List, [], ◌∷◌, if◌then◌else◌}
use devscan.Base.Text.{Text, text_eq, is_empty}
use devscan.Result.{Result, ok, ◌>>=◌}
use devscan.Json.{JsonLibrary}
use devscan.Configure.Requests.{
  JsonWriter, id_key, result_key, err_key, configuration_method_tree, configuration_tree,
  default_gateway_tree, manual_configuration_tree,
}

-- The environment: the multicast server with the list of adapters, the clock and `rand`.
pub record Surroundings : Type 1 where
  pub State : Type 0
  -- `time(NULL)` and `rand() % 1000` as text, with a colon between
  pub create_id : State → Text × State
  -- `m_netadapterList.update()`
  pub update : State → State
  -- the message and the hops: over all interfaces, and over the one with an address
  pub send : Text → ℕ → State → State
  pub send_over_interface_by_address : Text → Text → ℕ → State → State
  -- `execute_for(TIMETOWAITFORANSWERS)`: the batches of datagrams that arrive
  pub arrivals : State → List (List Text) × State

pub record ConfigureClient (env : Surroundings) : Type 0 where
  pub id : Text
  pub response : Text
  pub state : env.State

-- What `recvCb` does with a telegram that is no empty one: it keeps it as the response and stops the
-- event loop, or it leaves both.
pub data Decision : Type 0 where
  answers ignores : Decision

module _ (json : JsonLibrary) where
  open json use {parse, is_member, index, as_string}

  -- The comparison of the ids.
  unfoldable pub check_id : Text → json.Value → Result Decision
  check_id id node = index node id_key >>= λ found.
      as_string found.1 >>= λ other. ok (if text_eq id other then answers else ignores)

  -- The second call of `isMember` is made only if the first one gives false.
  unfoldable pub is_response : json.Value → Result Bool
  is_response node = is_member node result_key >>= λ has_result.
      if has_result then ok true else is_member node err_key

  unfoldable pub inspect_node : Text → json.Value → Result Decision
  unfolding check_id is_response
  inspect_node id node =
      is_response node >>= λ response. if response then check_id id node else ok ignores

  abbrev pub inspect_parsed : Text → Option json.Value → Result Decision
  inspect_parsed id none = ok ignores
  inspect_parsed id (some node) = inspect_node id node

  unfoldable pub recv_cb : Text → Text → Result Decision
  unfolding inspect_node
  recv_cb id [] = ok ignores
  recv_cb id (b ∷ telegram) = parse (b ∷ telegram) >>= inspect_parsed id

  -- A batch: the response behind it, and whether the event loop was stopped.
  unfoldable pub handle_batch : Text → Text → Bool → List Text → Result (Text × Bool)
  unfolding recv_cb
  handle_batch id response stopped [] = ok (response, stopped)
  handle_batch id response stopped (telegram ∷ rest) =
      let kept = handle_batch id response stopped rest in
      let taken = handle_batch id telegram true rest in
      recv_cb id telegram >>= λ decision. elim decision [ answers ↦ taken | ignores ↦ kept ]

  -- The batches while the event loop runs: the response behind them.
  unfoldable pub wait_for_answer : Text → Text → List (List Text) → Result Text
  unfolding handle_batch
  wait_for_answer id response [] = ok response
  wait_for_answer id response (batch ∷ rest) = handle_batch id response false batch >>= λ handled.
      let later = wait_for_answer id handled.0 rest in if handled.1 then ok handled.0 else later

  module _ (env : Surroundings) where
    abbrev pub send_request : Text → ℕ → Text → env.State → env.State
    send_request interface_ip ttl message s =
        if is_empty interface_ip
        then env.send message ttl s
        else env.send_over_interface_by_address interface_ip message ttl s

    -- The response is a member of the object, and it is returned from there.
    unfoldable pub execute_request :
        Text → ℕ → Text → ConfigureClient env → Result (Text × ConfigureClient env)
    unfolding wait_for_answer
    execute_request interface_ip ttl message client =
        let sent = send_request interface_ip ttl message (env.update client.state) in
        let arrived = env.arrivals sent in
        wait_for_answer client.id client.response arrived.0 >>= λ response.
        ok (response, record client { response = response; state = arrived.1 })

    -- `m_id = createId()`
    abbrev pub with_new_id : ConfigureClient env → ConfigureClient env
    with_new_id client = record client {
      id = (env.create_id client.state).0;
      state = (env.create_id client.state).1;
    }

    module _ (w : JsonWriter) where
      unfoldable pub set_interface_configuration_method :
          Text → ℕ → Text → Text → Text → ConfigureClient env → Result (Text × ConfigureClient env)
      unfolding execute_request configuration_method_tree
      set_interface_configuration_method interface_ip ttl uuid name method client =
          let client' = with_new_id client in
          execute_request interface_ip ttl
            (w.write (configuration_method_tree w client'.id ttl uuid name method)) client'

      unfoldable pub set_interface_configuration :
          Text
          → ℕ
          → Text
          → Text
          → Text
          → Text
          → Text
          → ConfigureClient env
          → Result (Text × ConfigureClient env)
      unfolding execute_request configuration_tree
      set_interface_configuration interface_ip ttl uuid name method address netmask client =
          let client' = with_new_id client in
          execute_request interface_ip ttl
            (w.write (configuration_tree w client'.id ttl uuid name method address netmask)) client'

      unfoldable pub set_default_gateway :
          Text → ℕ → Text → Text → ConfigureClient env → Result (Text × ConfigureClient env)
      unfolding execute_request default_gateway_tree
      set_default_gateway interface_ip ttl uuid gateway client =
          let client' = with_new_id client in
          execute_request interface_ip ttl
            (w.write (default_gateway_tree w client'.id ttl uuid gateway)) client'

      unfoldable pub set_interface_manual_configuration :
          Text
          → ℕ
          → Text
          → Text
          → Text
          → Text
          → ConfigureClient env
          → Result (Text × ConfigureClient env)
      unfolding execute_request manual_configuration_tree
      set_interface_manual_configuration interface_ip ttl uuid name address netmask client =
          let client' = with_new_id client in
          execute_request interface_ip ttl
            (w.write (manual_configuration_tree w client'.id ttl uuid name address netmask)) client'

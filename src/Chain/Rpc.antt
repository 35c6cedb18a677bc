-- ===== src/Chain/Rpc.antt =====
-- The calls of p2pearl/chain/node_rpc.py: what becomes of an answer of the parent node. The HTTP
-- exchange and JSON are outside; `Value` is a decoded result.
use p2pearl.Prelude.{ℕ, ◌+◌, Option, none, some, ◌++◌}
use p2pearl.Prelude.Keys.{Str}
use p2pearl.Prelude.Text.{codes, decimal}

module _ (Value : Type 0) where
  -- A decoded body: an error that is not empty, as `str` prints it, or a result, which may be null.
  pub record Body : Type 0 where
    pub error : Option Str
    pub result : Option Value

  -- What `urlopen` does: a body, an HTTP error with or without a body that can be decoded, an error of
  -- the transport, or another exception, such as a body that is no JSON.
  pub data Reply : Type 0 where
    replied : Body → Reply
    http_error : ℕ → Option Body → Reply
    url_error : Str → Reply
    other : Reply

  -- What `_call` does: it returns, it raises NodeRPCError, or another exception leaves it.
  pub data Called : Type 0 where
    returned : Option Value → Called
    node_rpc_error : Str → Called
    escaped : Called

  abbrev of_body : Str → Body → Called
  of_body method body = elim body.error [
    | some e ↦ node_rpc_error (method ++ (codes ": " ++ e))
    | none ↦ returned body.result
  ]

  unfoldable pub call_result : Str → Str → Reply → Called
  call_result url method (replied body) = of_body method body
  call_result url method (http_error code (some body)) = of_body method body
  call_result url method (http_error code none) =
      node_rpc_error (method ++ (codes ": HTTP " ++ decimal code))
  call_result url method (url_error reason) =
      node_rpc_error
        (method ++ (codes ": cannot reach node at " ++ (url ++ (codes ": " ++ reason))))
  call_result url method other = escaped

  -- The client, with the id of its last request.
  pub record NodeRpc : Type 0 where
    pub url : Str
    pub request_id : ℕ

  -- `_call`: the request that is sent has the id that follows.
  unfoldable pub call : Str → Reply → NodeRpc → NodeRpc × Called
  unfolding call_result
  call method reply c = (record c { request_id = c.request_id + 1 }, call_result c.url method reply)

  unfoldable pub get_block_template : Reply → NodeRpc → NodeRpc × Called
  unfolding call
  get_block_template = call (codes "getblocktemplate")

  unfoldable pub submit_block : Reply → NodeRpc → NodeRpc × Called
  unfolding call
  submit_block = call (codes "submitblock")

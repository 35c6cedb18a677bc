-- ===== src/Lib.antt =====
-- P2Pearl is a peer-to-peer mining pool: its nodes keep a second chain, the sharechain, of proofs
-- of work that are easier than a block of the parent chain, and every block pays the miners of the
-- last shares (PPLNS). This library models the program's core and proves what it is meant to do.
--
-- The parts, and how they work together. A miner speaks to the stratum server, which hands it jobs.
-- A job comes from the pool daemon: it builds a candidate share on the best tip of the sharechain,
-- with the payouts of the window before it, and a header that commits to both. A submission is
-- verified, added to the sharechain, announced by the gossip layer, and proved as a block where it
-- is one. A node that hears of a share asks for its proof, verifies it against payouts that it
-- computes itself, adds the share and passes it on. The sharechain decides what is valid and which
-- tip is best.
--
-- Config is p2pearl/config.py; paths of p2pearl are relative to the repository's src/. Consensus/Subsidy, Consensus/Difficulty,
-- Consensus/Pplns, Consensus/Share and Consensus/Sharechain are the files of p2pearl/consensus with
-- these names, and each has child modules for what is proved of it. In Sharechain, the dictionary
-- of entries is an association list and `_best_tip` an option; Validate has `_validate` and
-- `_recent`, with one function for each group of checks, and Add has `add_share` and `_prune`.
--
-- P2p is p2pearl/p2p/node.py: Rate has the rate gate of a peer, Handlers a function on_x for each
-- handler _h_x, and `dispatch`. Network has the connections and the loop
-- that reads them. A handler takes the node's state and returns the new one with the
-- messages and hook calls, in order; where the source raises inside a handler, the state so far is
-- kept, since `_dispatch` catches it. Pool is p2pearl/daemon.py with p2pearl/chain/coinbase.py and
-- the comparison in p2pearl/pow/verify.py: Jobs has `build_job_for`, Submit the handling of
-- submissions and blocks, Verify what a peer rebuilds of a share. Stratum is
-- p2pearl/stratum/server.py and protocol.py: the parent has logins, jobs and the registry, Session
-- the request handlers, and Server the whole server over its connections, as a step for each event. Prelude has what they share: results as Python's exceptions, dictionaries,
-- sorting, the byte encodings and hexadecimal digits. Samples has the shares that the modules
-- called Tests use.
--
-- Pool has three more parts of the daemon: Refresh has the poll loop and the coalescing of job
-- refreshes, where a step of the refresh task runs it to its next await; Vardiff the adaptive
-- factor of a worker; Template and Estimate what is read of a template and the payout line. Chain
-- is the rest of p2pearl/chain and p2pearl/pow: Transaction assembles the coinbase, Rpc says what
-- becomes of an answer of the node, and Proofs has `verify_share` and `verify_block_solution`. Cli
-- is p2pearl/cli.py: Options has the arguments of `p2pearl daemon` as argparse reads them. Desktop
-- is p2pearl/gui.py: Settings has the settings and the command lines made of them, Payouts the
-- table, Panel the window's state, buttons and events, Floats the division and the decimals of
-- an amount, Pearld how the parent node is installed, watched and stopped. The clicks, the events and the answers of the system come as arguments, in
-- any order. Binding is tools/apply_m2_binding.py, the tool that adds a binding to a checkout of the
-- prover's sources.
--
-- Parameters: `hashlib.sha256`, of which nothing is assumed; the check of a proof and the building
-- of headers, transactions and blocks, which are the third-party pearl_mining, pearl_gateway and
-- bitcoinutils; the average of share intervals, a float; files, processes and the answers of other
-- programs; the job builder in the stratum server; and the clock, in whole seconds for consensus
-- and nanoseconds for the rate gate. Strings are lists of character codes, bytes lists of numbers.
-- Widths are explicit: packing a number that is too wide raises.
--
-- Fuel: the loop that drops small payouts takes as many rounds as there are miners, each of which
-- removes one. The look-back, the window walk and the window sync are bounded in the source by the
-- retarget window, the PPLNS window and 2048. A number has fewer digits, and fewer groups of three,
-- than its successor says. `bit_length` halves its number at most as often as the number says, and
-- a merkle tree has fewer levels than ids.
--
-- Not modelled: sockets, tasks, locks and logging; JSON decoding, so that a message has fields of
-- the documented types; `next_share_target`, which nothing calls and which computes with floats;
-- the daemon's set-up and its timing traces; in P2p, the shares that the daemon adds to the
-- sharechain itself; the layout, status line and log of the window; the demonstration.
pub mod Config
pub mod Consensus
pub mod P2p
pub mod Pool
pub mod Prelude
pub mod Samples
pub mod Stratum
pub mod Binding
pub mod Chain
pub mod Cli
pub mod Desktop

-- ===== src/Lib.antt =====
-- The Rust core of a verifiable retrieval engine, and the enclave service around it.
--
-- The engine: plain text is cut into tokens, the tokens are folded into a tree of sections, sentences
-- and terms, the tree is read as a graph of symbols, and the graph is asked with patterns; a prefix
-- tree holds an index of symbols, and a knowledge graph holds entities and their relations without a
-- cycle. All of it is meant to be a pure function of the bytes, so that an enclave can prove what it
-- did. The code is that of enclave/src/rag_engine/src; the Python service of enclave/src uses it
-- through the bridge of ffi.rs.
--
-- The service, enclave/enclave_grpc/src: it fetches a web response over TLS and signs a proof of what
-- it selected from it (zktls), gathers prices of five exchanges into a price book and submits their
-- medians to a chain (ftso_provider), and builds and verifies tokens that attest the enclave
-- (attestation).
--
-- Files and what they model, in enclave/src/rag_engine/src:
--   Lexer        lib.rs: `TokenKind`, `Token`, `IndexerError`, `tokenize`
--   Parser       lib.rs: `Span`, `AstNode` with `sentences` and `terms`, `parse`
--   TokenGraph   ast.rs: `SymbolType`, `Node`, `Edge`, `DocumentAST`, `lex`; lib.rs: `from_ast`
--   Matching     lib.rs: `Pattern`, `GraphMatch`, `match_graph`
--   Pipeline     the composition of these parts that `lex` is
--   Trie         trie.rs: `TrieNode`, `SymbolicTrie`, `collect_values`
--   KnowledgeGraph            graph.rs: `GraphError`, `Entity`, `KnowledgeGraph`, `add_entity`,
--                             `has_relation`, `insert_edge`
--   KnowledgeGraph.Search     graph.rs: `reachable_from`, `ancestors_of`, `can_reach`
--   KnowledgeGraph.Ranks      graph.rs: `rebuild_ranks`
--   KnowledgeGraph.Relations  graph.rs: `add_relation`
--   KnowledgeGraph.Listing    graph.rs: `outgoing`, `incoming`, `relations`, `relation_count`,
--                             `topological_order`
--   KnowledgeGraph.Access     graph.rs: `entity_count`, `is_empty`, `entity`, `contains_entity`
--   KnowledgeGraph.Evidence   graph.rs: `Path`, `find_path`
--   KnowledgeGraph.Payload    graph.rs: `Serialize`, `Deserialize`, less the text format of serde
-- and in enclave/enclave_grpc/src:
--   ZkTls                 zktls/proof_generator.rs: `ProofError`, `ZkTlsProof` with `to_bytes`,
--                         `from_bytes` and `signed_digest`, `canonical_payload`
--   ZkTls.Generation      zktls/proof_generator.rs: `jq_select`, `cert_fingerprint`,
--                         `generate_proof`, `recover_signer`; zktls/cert_verifier.rs: `CapturedChain`
--   ZkTls.Sink            zktls/cert_verifier.rs: `ChainSink`, `verify_server_cert`
--   Ftso                  the floating-point operations that the next files take as parameters
--   Ftso.Calculator       ftso_provider/calculator.rs: `Observation`, `volume_trimmed_median`
--   Ftso.Node             ftso_provider/node.rs: `Ticker`, `PriceBook`, `stale_feeds`,
--                         `check_staleness`, `live_exchanges`
--   Ftso.Node.Parsers     ftso_provider/node.rs: `parse_ticker` and the parser of each venue
--   Ftso.Node.Connector   ftso_provider/node.rs: `stream_once`, `run_exchange_loop`, `snapshot`
--   Ftso.Submitter        ftso_provider/submitter.rs: `format_price`, `commit_hash`, the calldata,
--                         `PriceSubmission`
--   Attestation           attestation/eat_builder.rs: `EatClaims`, `EatError`, `encode_claims`,
--                         `sig_structure`
--   Attestation.Token     attestation/eat_builder.rs: `build_eat`, `ParsedCoseSign1`,
--                         `parse_cose_sign1`, `decode_claims`
--   Attestation.Verifier  attestation/verifier.rs: `verify_cose_sign1`, `validate_claims`,
--                         `verify_eat`
--   Prelude      tests on numbers, lists, bytes, results and texts, which the others share
-- Below a module stand its invariants and lemmas, each in a module named for what it proves;
-- Examples holds runs on small inputs.
--
-- Conventions. A `&str` is the list of its bytes where the code walks over bytes (Lexer, and all
-- that takes lexemes) or hashes them (ZkTls), and the list of its code points where the code walks
-- over characters (Trie, whose length test counts the bytes of each in UTF-8; Attestation, where
-- `trim` does). `usize` is a natural number: every number here is a position in a document or a list
-- in memory, or a count of its parts, and no sum passes its length. A fixed array of bytes is the
-- list of its bytes; that it has its length is a hypothesis of the theorems that need it, and so is
-- the bound of a `u64`. `to_lowercase` is that of ASCII, since every lexeme is ASCII: a byte from 128
-- on has no class.
-- A `BTreeMap` is an association list: in `from_ast`, whose index is only read by key, in the order
-- of insertion, newest first, and so for the index of texts of the knowledge graph; in the prefix
-- tree and in the adjacency maps in the order of the keys, which `entry` keeps. The `HashMap`s of the
-- price book are association lists in an order of no account. A `BTreeSet` is the
-- list of its members in order. A missing row of an adjacency map is an empty one. `visited[i]`,
-- `indeg[i]` and `topo[i]` panic out of range; on a valid graph they are read in range only, and
-- the model reads marked and zero there, and leaves a count of zero as it is where the code would
-- take one off. A panic that the code can reach is a `none` around the result: of `windows(0)`, and
-- of the sort of prices that do not compare. A local variable that a closure or a loop changes is a
-- field of a record of state; `?` is the bind of a do block.
-- Third-party code is a parameter: the jq engine, the hashes, the signatures, CBOR, JSON, the check
-- of certificates and the clock are the fields of the records `Backend`, `Json` and of arguments,
-- and `f64` is the record `Floats`, since its rounding is of no account for the theorems. What a
-- theorem relies on of them is a record of laws among its hypotheses (`IsLawful`, `IsOrdered`,
-- `HasSums`, `HasMeans`), and the Examples show implementations for which these laws hold. What the
-- network does is an input: a list of events for each connection. A time is a number of milliseconds.
-- The loop of `tokenize` runs on fuel, the number of bytes of the input, and that of
-- `collect_values` on the number of nodes; Lexer.Correct and Trie.Collect show that these are
-- enough. The searches, `find_path` and `rebuild_ranks` run on the number of entities;
-- KnowledgeGraph.Loops, Traced and Ranked show that they end within it for every graph whose maps
-- are in order and whose edges join entities of it. The decimal text of a number has the number for
-- fuel. All other loops are recursive on the list they walk over; `run_exchange_loop`, which never
-- ends, is recursive on the list of the connections made so far.
--
-- Not modelled. Of the engine: serialization by serde and the digest `content_digest` (SHA-256 of a
-- JSON text); `Clone` and `Drop` of the prefix tree, which are about the depth of the call stack; of
-- the knowledge graph equality; the circuit of zkp.rs and the Python bridge of ffi.rs. Of the service:
-- the wallet of kms, the rate limiter of middleware, the handlers of grpc_server.rs, the HTTPS client
-- of zktls/proxy.rs, the device reports of attestation/tdx.rs and sev_snp.rs, the sockets and the
-- resolver of the price node, the signing of its transactions, and the command line tools.
pub mod Prelude
pub mod Lexer
pub mod Parser
pub mod TokenGraph
pub mod Matching
pub mod Pipeline
pub mod Trie
pub mod KnowledgeGraph
pub mod ZkTls
pub mod Ftso
pub mod Attestation

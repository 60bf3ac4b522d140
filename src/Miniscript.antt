-- ===== src/Miniscript.antt =====
-- src/common/wallet.c: the nodes of a descriptor template, the miniscript type system, and what
-- `compute_miniscript_policy_ext_info` finds out about a script; src/handler/lib/policy.c: whether a
-- miniscript is sane.
pub mod Node
pub mod Rules
pub mod Typing
pub mod Amount
pub mod Info
pub mod Script2
pub mod Thresh
pub mod Analysis
pub mod Ways
pub mod Maximum
pub mod Typed
pub mod Stack
pub mod Sugar
pub mod Elements
pub mod Token
pub mod Parser
pub mod Fragment
pub mod Parse
pub mod Ensures
pub mod Accepted
mod Tests

-- ===== src/LifecycleHooks.antt =====
-- app/multiagent/lifecycle_hooks.py: the hooks that are asked before the runtime acts.
pub mod Engine
pub mod Emission
pub mod Sorting
pub mod Asking
pub mod Guard
pub mod Samples

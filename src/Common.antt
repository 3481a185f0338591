-- ===== src/Common.antt =====
-- src/common: enums, balance arithmetic, the circuit breaker, reconciliation, the state machine, the
-- mutex, errors and the filter that answers them.
pub mod Enums
pub mod BalanceMath
pub mod CircuitBreaker
pub mod KeyedMutex
pub mod StateMachine
pub mod Reconciliation
pub mod Errors
pub mod HttpExceptionFilter
pub mod Exec

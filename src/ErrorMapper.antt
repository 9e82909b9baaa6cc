-- ===== src/ErrorMapper.antt =====
-- examples/go/errormapperinterceptor: the interceptor that turns the plain errors of activities into
-- application errors.
pub mod Chain
pub mod Wiring
pub mod Defaults
pub mod Grpc
pub mod ChainLaws
pub mod DefaultLaws
pub mod GrpcLaws
pub mod Tests

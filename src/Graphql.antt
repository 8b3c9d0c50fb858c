-- ===== src/Graphql.antt =====
-- framework/graphql: the GraphQL server's resolvers.
pub mod Server

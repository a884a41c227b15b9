-- ===== src/FlowClient.antt =====
-- packages/flow-client: the tree of a trace's spans.
pub mod SpanTree

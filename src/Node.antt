-- ===== src/Node.antt =====
-- pkg/service/node: what a node does about the other nodes.
pub mod FanIn
